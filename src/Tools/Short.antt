-- ===== src/Tools/Short.antt =====
-- krossbar-monitor/src/main.rs: what `short_name` keeps of a name, and when it panics.
use Prim.Native.Char.{Char, code}
use krossbar_bus.Common.{
  String, ◌≡◌, refl, ap, ◌∙◌, Bool, true, false, Option, none, some, List, [], ◌∷◌, ◌⊎◌, inl, inr,
  arith, Bool-cases, ◌==◌, contains_char, split, cons_first, ◌||◌, if◌then◌else◌,
}
use krossbar_bus.Names.Print.{split-cons}
use krossbar_bus.Tools.Monitor.{push_first, push_short, short_name}

-- No section holds the character.
abbrev pub HaveNo : Char → List String → Type 0
HaveNo c [] = Unit {0}
HaveNo c (s ∷ ss) = (contains_char c s ≡ false) × HaveNo c ss

cons_first-HaveNo :
    (c d : Char) (ss : List String)
    → (code d == code c) ≡ false
    → HaveNo c ss
    → HaveNo c (cons_first d ss)
unfolding cons_first contains_char
cons_first-HaveNo c d [] e h = ground arith
cons_first-HaveNo c d (s ∷ ss) e h = ground arith

split-HaveNo : (c : Char) (s : String) → HaveNo c (split c s)
unfolding split contains_char
split-HaveNo c String.[] = (refl, tt)
split-HaveNo c (String.◌∷◌ d s) =
    let ih = split-HaveNo c s in
    elim (Bool-cases (code d == code c)) [
      | inl same ↦ rw same (refl, ih)
      | inr other ↦ rw other (cons_first-HaveNo c d (split c s) other ih)
    ]

-- A text without the separator is one section.
split-one : (c : Char) (s : String) → contains_char c s ≡ false → split c s ≡ s ∷ []
unfolding split contains_char cons_first
split-one c String.[] e = refl
split-one c (String.◌∷◌ d s) e = elim (Bool-cases (code d == code c)) [
  | inl same ↦ ground arith
  | inr other ↦ rw (other, split-one c s (ground arith)) refl
]

-- The first character of a text, as a text.
pub initial : String → String
initial String.[] = ""
initial (String.◌∷◌ c s) = String.◌∷◌ c String.[]

-- The initials of the sections before the last one, which is shown as it is or painted.
pub initials : (String → String) → List String → List String
initials paint [] = []
initials paint (s ∷ []) = paint s ∷ []
initials paint (s ∷ t ∷ ts) = initial s ∷ initials paint (t ∷ ts)

pub is_empty : String → Bool
is_empty String.[] = true
is_empty (String.◌∷◌ c s) = false

pub empty_before_last : List String → Bool
empty_before_last [] = false
empty_before_last (s ∷ []) = false
empty_before_last (s ∷ t ∷ ts) = is_empty s || empty_before_last (t ∷ ts)

-- How the last section is shown.
abbrev pub paint : (String → String) → Bool → String → String
paint red target s = if target then red s else s

-- It panics, on an empty section before the last, or it shows the initials.
abbrev pub Shows : (String → String) → Bool → List String → Option String → Type 0
Shows red target sections o =
    ((empty_before_last sections ≡ true) × (o ≡ none))
    ⊎ ((empty_before_last sections ≡ false)
        × (r : String) × (o ≡ some r)
        × (split "." r ≡ initials (paint red target) sections))

split-initial :
    (c : Char) (r : String)
    → (code c == code ".") ≡ false
    → split "." (String.◌∷◌ c (String.◌∷◌ "." r)) ≡ String.◌∷◌ c String.[] ∷ split "." r
unfolding split cons_first
split-initial c r e = rw e refl

push_first-Shows :
    (red : String → String) (target : Bool) (s t : String) (ts : List String) (o : Option String)
    → contains_char "." s ≡ false
    → Shows red target (t ∷ ts) o
    → Shows red target (s ∷ t ∷ ts) (push_first s o)
unfolding push_first contains_char empty_before_last is_empty initials initial
push_first-Shows red target String.[] t ts o e h = inl (refl, refl)
push_first-Shows red target (String.◌∷◌ c s) t ts o e (inl (a, b)) = inl (a, rw b refl)
push_first-Shows red target (String.◌∷◌ c s) t ts o e (inr (a, r, b, q)) = inr (
  a,
  String.◌∷◌ c (String.◌∷◌ "." r),
  rw b refl,
  split-initial c r (ground arith) ∙ ap (◌∷◌ (String.◌∷◌ c String.[])) q,
)

push_short-Shows :
    (red : String → String) (target : Bool)
    → ((s : String) → contains_char "." s ≡ false → contains_char "." (red s) ≡ false)
    → (s : String) (ss : List String) → HaveNo "." (s ∷ ss)
    → Shows red target (s ∷ ss) (push_short red target (s ∷ ss))
unfolding push_short empty_before_last initials
push_short-Shows red true keeps s [] (h, u) =
    inr (refl, red s, refl, split-one "." (red s) (keeps s h))
push_short-Shows red false keeps s [] (h, u) = inr (refl, s, refl, split-one "." s h)
push_short-Shows red target keeps s (t ∷ ts) (h, hs) =
    push_first-Shows red target s t ts _ h (push_short-Shows red target keeps t ts hs)

-- If painting a text adds no dot, then `short_name` panics exactly on a name with an empty section
-- before the last one, and what it prints otherwise has the same sections, of which all but the last
-- are cut to their first character, and the last is painted if it was asked to.
pub short_name_lem :
    (red : String → String) (name : String) (target : Bool)
    → ((s : String) → contains_char "." s ≡ false → contains_char "." (red s) ≡ false)
    → Shows red target (split "." name) (short_name red name target)
unfolding short_name
short_name_lem red name target keeps =
    let (t, ts, e) = split-cons "." name in
    rw e (push_short-Shows red target keeps t ts (rw e at (split-HaveNo "." name)))
