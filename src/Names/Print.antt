-- ===== src/Names/Print.antt =====
-- Parsing loses nothing: a pattern printed again is the text that it was parsed from.
use Prim.Native.Char.{Char, code}
use Prim.Native.String.{◌++◌ as text_append}
use text.Mathlib.TextEquality.{Char-path}
use text.Mathlib.TextLemmas.{nil-append, cons-append}
use krossbar_bus.Common.{
  String, ◌≡◌, refl, sym, ap, ◌∙◌, inl, inr, >>=-eq-ok, List, [], ◌∷◌, ◌++◌, append-nil,
  append_assoc, map, map-append, arith, Bool-cases, Result, ok, split, cons_first, eq_iff, ◌==◌,
}
use krossbar_bus.Names.{
  NameSectionPattern, any_name, any_sections, section, NamePattern, section_from_string,
  push_sections, from_string,
}

-- The text of a list of sections, with dots between them.
pub join : List String → String
join [] = ""
join (s ∷ []) = s
join (s ∷ t ∷ ts) = text_append s (text_append "." (join (t ∷ ts)))

pub print_section : NameSectionPattern → String
print_section any_name = "*"
print_section any_sections = "**"
print_section (section s) = s

pub print : NamePattern → String
print p = join (map print_section p.section_patterns)

pub split-cons : (c : Char) (s : String) → (t : String) × (ts : List String) × (split c s ≡ t ∷ ts)
unfolding split cons_first
split-cons c String.[] = (_, _, refl)
split-cons c (String.◌∷◌ d s) = elim (Bool-cases (code d == code c)) [
  | inl e ↦ (String.[], split c s, rw e)
  | inr e ↦ let (t, ts, rest) = split-cons c s in (String.◌∷◌ d t, ts, rw (e, rest))
]

join-cons_first :
    (d : Char) (t : String) (ts : List String)
    → join (cons_first d (t ∷ ts)) ≡ String.◌∷◌ d (join (t ∷ ts))
unfolding join cons_first
join-cons_first d t [] = refl
join-cons_first d t (u ∷ us) = cons-append d t _

-- Splitting at the dots loses nothing.
pub join-split : (s : String) → join (split "." s) ≡ s
unfolding split join
join-split String.[] = refl
join-split (String.◌∷◌ d s) =
    let (t, ts, e) = split-cons "." s in
    let rest : join (t ∷ ts) ≡ s = ap join (sym e) ∙ join-split s in
    elim (Bool-cases (code d == code ".")) [
      | inl dot ↦
          let d_is_dot : d ≡ "." = Char-path d "." (ground arith) in
          rw (dot, e)
            (rw (d_is_dot, rest)
              (nil-append _ ∙ cons-append "." "" s ∙ ap (String.◌∷◌ ".") (nil-append s)))
      | inr other ↦ rw (other, e) (join-cons_first d t ts ∙ ap (String.◌∷◌ d) rest)
    ]

section-print :
    (s : String) (p : NameSectionPattern) → section_from_string s ≡ ok p → print_section p ≡ s
unfolding section_from_string print_section
section-print s p h = ground (arith, eq_iff s "", eq_iff s "*", eq_iff s "**")

pub ok_inj {ℓ κ} : {A : Type ℓ} {E : Type κ} {a b : A} → ◌≡◌ {A = Result A E} (ok a) (ok b) → a ≡ b
ok_inj h = cc

push_sections-print :
    (ps : List NameSectionPattern) (ss : List String) (qs : List NameSectionPattern)
    → push_sections ps ss ≡ ok qs
    → map print_section qs ≡ map print_section ps ++ ss
unfolding push_sections
push_sections-print ps [] qs h = cc (append-nil (map print_section ps), ok_inj h)
push_sections-print ps (s ∷ ss) qs h =
    let (p, e, h') = >>=-eq-ok (section_from_string s) _ h in
    let ih = push_sections-print (ps ++ p ∷ []) ss qs h' in
    ih ∙ simp (map-append, append_assoc, section-print s p e)

-- A pattern that was parsed prints as the text that it was parsed from.
pub print-from_string : (s : String) (p : NamePattern) → from_string s ≡ ok p → print p ≡ s
unfolding from_string print
print-from_string s p h =
    let (ps, e, h') = >>=-eq-ok (push_sections [] (split "." s)) _ h in
    let same : ps ≡ p.section_patterns = ap (λ (q : NamePattern). q.section_patterns) (ok_inj h') in
    rw (← same, push_sections-print [] (split "." s) ps e) (join-split s)
