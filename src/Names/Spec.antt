-- ===== src/Names/Spec.antt =====
-- What it means for the sections of a service name to match a pattern, with no search in it.
use krossbar_bus.Common.{
  ℕ, zero, suc, ◌+◌, String, ◌≡◌, refl, ◌⊎◌, inl, inr, Bool, false, ◌||◌, ◌&&◌, Option, none, some,
  List, [], ◌∷◌, get_elem?, drop, ◌==◌, text_eq,
}
use krossbar_bus.Names.{NameSectionPattern, any_name, any_sections, section}

-- `*` takes one section, a name takes itself, and `**` takes one section or more.
pub data Matches : List NameSectionPattern → List String → Type 0 where
  nothing : Matches [] []
  any_one :
      {ps : List NameSectionPattern} {n : String} {ns : List String}
      → Matches ps ns
      → Matches (any_name ∷ ps) (n ∷ ns)
  itself :
      {ps : List NameSectionPattern} {p n : String} {ns : List String}
      → p ≡ n
      → Matches ps ns
      → Matches (section p ∷ ps) (n ∷ ns)
  last_one :
      {ps : List NameSectionPattern} {n : String} {ns : List String}
      → Matches ps ns
      → Matches (any_sections ∷ ps) (n ∷ ns)
  one_more :
      {ps : List NameSectionPattern} {n : String} {ns : List String}
      → Matches (any_sections ∷ ps) ns
      → Matches (any_sections ∷ ps) (n ∷ ns)

-- Which leaves one section of a name leads to from the leaf `i`, by the pattern that stands there.
abbrev pub moves : Option NameSectionPattern → String → ℕ → ℕ → Bool
moves none n i j = false
moves (some any_name) n i j = i + 1 == j
moves (some any_sections) n i j = i + 1 == j || i == j
moves (some (section p)) n i j = text_eq p n && i + 1 == j

pub drop-suc {ℓ} :
    {A : Type ℓ} (i : ℕ) (xs : List A) {x : A} {r : List A}
    → drop i xs ≡ x ∷ r
    → drop (suc i) xs ≡ r
drop-suc zero [] e = cc
drop-suc zero (y ∷ ys) e = cc
drop-suc (suc i) [] e = cc
drop-suc (suc i) (y ∷ ys) e = drop-suc i ys e

-- The rest of the patterns at a leaf: it ends there, or the leaf's pattern comes first.
pub drop-cases {ℓ} :
    {A : Type ℓ} (i : ℕ) (xs : List A)
    → ((drop i xs ≡ []) × (get_elem? xs i ≡ none))
      ⊎ ((x : A) × (get_elem? xs i ≡ some x) × (drop i xs ≡ x ∷ drop (suc i) xs))
drop-cases zero [] = inl (refl, refl)
drop-cases zero (x ∷ xs) = inr (x, refl, refl)
drop-cases (suc i) [] = inl (refl, refl)
drop-cases (suc i) (x ∷ xs) = drop-cases i xs
