-- ===== src/Names/Exact.antt =====
-- What the three kinds of pattern grant: a name grants itself, `**` grants every service.
use Prim.Native.Char.{Char, code}
use krossbar_bus.Common.{
  String, ◌≡◌, refl, sym, ap, ap₂, ◌∙◌, Bool, true, false, ◌↔◌, Option, none, some, List, [], inl,
  inr, ◌∷◌, ◌++◌, append-nil, append_assoc, map, arith, Bool-cases, Result, ok, err, contains_char,
  split, cons_first, text_eq, ◌==◌,
}
use krossbar_bus.Names.{
  NameSectionPattern, any_sections, section, NamePattern, NameError, section_from_string,
  push_sections, from_string, has_empty, Order, matches,
}
use krossbar_bus.Names.Spec.{Matches, nothing, itself, last_one, one_more}
use krossbar_bus.Names.Decide.{Visits, IsWellFormed, Answers, matches-Answers}
use krossbar_bus.Names.Print.{join, join-split, split-cons, ok_inj}

-- No section holds an asterisk, and none is empty.
abbrev ArePlain : List String → Type 0
ArePlain [] = Unit {0}
ArePlain (s ∷ ss) = (contains_char "*" s ≡ false) × (text_eq s "" ≡ false) × ArePlain ss

abbrev HaveNoAsterisk : List String → Type 0
HaveNoAsterisk [] = Unit {0}
HaveNoAsterisk (s ∷ ss) = (contains_char "*" s ≡ false) × HaveNoAsterisk ss

cons_first-HaveNoAsterisk :
    (d : Char) (ss : List String)
    → (code d == code "*") ≡ false
    → HaveNoAsterisk ss
    → HaveNoAsterisk (cons_first d ss)
unfolding cons_first contains_char
cons_first-HaveNoAsterisk d [] e h = ground arith
cons_first-HaveNoAsterisk d (s ∷ ss) e h = ground arith

split-HaveNoAsterisk : (s : String) → contains_char "*" s ≡ false → HaveNoAsterisk (split "." s)
unfolding split contains_char
split-HaveNoAsterisk String.[] h = (refl, tt)
split-HaveNoAsterisk (String.◌∷◌ d s) h =
    let ih = split-HaveNoAsterisk s (ground arith) in
    elim (Bool-cases (code d == code ".")) [
      | inl dot ↦ rw dot (refl, ih)
      | inr other ↦ rw other (cons_first-HaveNoAsterisk d (split "." s) (ground arith) ih)
    ]

ArePlain-intro : (ss : List String) → HaveNoAsterisk ss → has_empty ss ≡ false → ArePlain ss
unfolding has_empty
ArePlain-intro [] h e = tt
ArePlain-intro (s ∷ ss) h e = (h.0, ground arith, ArePlain-intro ss h.1 (ground arith))

push_sections-plain :
    (ps : List NameSectionPattern) (ss : List String)
    → ArePlain ss
    → push_sections ps ss ≡ ok (ps ++ map section ss)
unfolding push_sections section_from_string
push_sections-plain ps [] h = ap ok (sym (append-nil ps))
push_sections-plain ps (s ∷ ss) h =
    rw (h.1, h.0) (push_sections-plain (ps ++ section s ∷ []) ss h.2 ∙ ap ok (append_assoc ps _ _))

Matches-section : (ss ns : List String) → Matches (map section ss) ns ↔ (ns ≡ ss)
Matches-section ss ns = (to ss ns, from ss ns)
  where
    to : (ss ns : List String) → Matches (map section ss) ns → ns ≡ ss
    to [] [] m = refl
    to [] (n ∷ ns) m = elim m [ ]
    to (s ∷ ss) [] m = elim m [ ]
    to (s ∷ ss) (n ∷ ns) (itself e m) = ap₂ ◌∷◌ (sym e) (to ss ns m)

    from : (ss ns : List String) → ns ≡ ss → Matches (map section ss) ns
    from ss ns e = rw e (self ss)
      where
        self : (ss : List String) → Matches (map section ss) ss
        self [] = nothing
        self (s ∷ ss) = itself refl (self ss)

Answers-iff :
    {G H : Type 0} (r : Option (Result Bool NameError)) → G ↔ H → Answers G r → Answers H r
Answers-iff none e h = h
Answers-iff (some (err x)) e h = h
Answers-iff (some (ok true)) e h = e.0 h
Answers-iff (some (ok false)) e h = λ x. h (e.1 x)

-- A pattern that is parsed from a plain service name (no asterisk, no empty section) matches, of
-- the plain service names, that name and no other, in any iteration order of the sets.
pub matches-from_string :
    (order : Order) (name other : String) (p : NamePattern)
    → Visits order
    → IsWellFormed name
    → IsWellFormed other
    → from_string name ≡ ok p
    → Answers (other ≡ name) (matches order p other)
unfolding from_string
matches-from_string order name other p visits plain well parsed =
    let sections = ArePlain-intro (split "." name) (split-HaveNoAsterisk name plain.0) plain.1 in
    let pushed = push_sections-plain [] (split "." name) sections in
    let e : p.section_patterns ≡ map section (split "." name) =
      ap (λ (q : NamePattern). q.section_patterns) (sym (ok_inj (rw pushed at parsed))) in
    Answers-iff (matches order p other)
      (
        λ m.
            sym (join-split other)
            ∙ ap join ((Matches-section (split "." name) _).0 (rw e at m))
            ∙ join-split name,
        λ same. rw (e, same) ((Matches-section (split "." name) _).1 refl),
      )
      (matches-Answers order p other visits well)

Matches-any_sections : (n : String) (ns : List String) → Matches (any_sections ∷ []) (n ∷ ns)
Matches-any_sections n [] = last_one nothing
Matches-any_sections n (m ∷ ns) = one_more (Matches-any_sections m ns)

Answers-true :
    {G : Type 0} (r : Option (Result Bool NameError)) → G → Answers G r → r ≡ some (ok true)
Answers-true none g h = absurd h
Answers-true (some (err x)) g h = absurd h
Answers-true (some (ok true)) g h = refl
Answers-true (some (ok false)) g h = absurd (h g)

-- The pattern `**` matches every service name that has no asterisk and no empty section.
pub matches-any_sections :
    (order : Order) (p : NamePattern) (name : String)
    → Visits order
    → from_string "**" ≡ ok p
    → IsWellFormed name
    → matches order p name ≡ some (ok true)
unfolding from_string push_sections section_from_string split cons_first contains_char
matches-any_sections order p name visits parsed well =
    let (t, ts, e) = split-cons "." name in
    let ps : p.section_patterns ≡ any_sections ∷ [] =
      ap (λ (q : NamePattern). q.section_patterns) (sym (ok_inj parsed)) in
    Answers-true (matches order p name) (rw (ps, e) (Matches-any_sections t ts))
      (matches-Answers order p name visits well)
