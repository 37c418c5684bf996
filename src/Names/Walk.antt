-- ===== src/Names/Walk.antt =====
-- One round of the matching loop: it never indexes out of bounds, and it reaches exactly the leaves
-- that the section of the name leads to.
use krossbar_bus.Common.{
  ℕ, zero, suc, ◌≤◌, ◌<◌, ◌+◌, String, ◌≡◌, refl, inl, inr, Bool, false, ◌||◌, Option, none, some,
  List, [], ◌∷◌, arith, length, get_elem?, ◌==◌, contains, insert, contains-insert, Bool-cases,
}
use krossbar_bus.Names.{
  NameSectionPattern, any_name, any_sections, section, extend, visit, visit_all,
}
use krossbar_bus.Names.Spec.{moves}

pub get_elem?-lt {ℓ} :
    {A : Type ℓ} (xs : List A) (i : ℕ) {x : A} → get_elem? xs i ≡ some x → i < length xs
get_elem?-lt [] i e = cc
get_elem?-lt (y ∷ ys) zero e = omega arith
get_elem?-lt (y ∷ ys) (suc i) e = omega (arith, get_elem?-lt ys i e)

get_elem?-none_of {ℓ} : {A : Type ℓ} (xs : List A) (i : ℕ) → i ≡ length xs → get_elem? xs i ≡ none
get_elem?-none_of [] i e = refl
get_elem?-none_of (x ∷ xs) zero e = absurd (omega arith)
get_elem?-none_of (x ∷ xs) (suc i) e = get_elem?-none_of xs i (omega arith)

get_elem?-none {ℓ} : {A : Type ℓ} (xs : List A) (i : ℕ) → get_elem? xs i ≡ none → length xs ≤ i
get_elem?-none [] i e = omega arith
get_elem?-none (y ∷ ys) zero e = cc
get_elem?-none (y ∷ ys) (suc i) e = omega (arith, get_elem?-none ys i e)

-- What a step that adds the leaves `added` gives.
abbrev pub Adds : Option (List ℕ) → (ℕ → Bool) → List ℕ → Type 0
Adds result added next =
    (next' : List ℕ) × (result ≡ some next')
    × ((j : ℕ) → contains j next' ≡ (added j || contains j next))

extend-Adds :
    (p : NameSectionPattern) (n : String) (i : ℕ) (next : List ℕ)
    → Adds (extend (some p) n i next) (moves (some p) n i) next
unfolding extend
extend-Adds any_name n i next = (_, refl, contains-insert_at)
  where
    contains-insert_at :
        (j : ℕ) → contains j (insert (i + 1) next) ≡ (i + 1 == j || contains j next)
    contains-insert_at j = contains-insert (i + 1) j next
extend-Adds any_sections n i next = (
  _,
  refl,
  λ j. ground (arith, contains-insert (i + 1) j (insert i next), contains-insert i j next),
)
extend-Adds (section p) n i next = (_, refl, λ j. ground (arith, contains-insert (i + 1) j next))

visit-Adds :
    (ps : List NameSectionPattern) (n : String) (i : ℕ) (next : List ℕ)
    → i ≤ length ps
    → Adds (visit ps n i next) (moves (get_elem? ps i) n i) next
unfolding visit
visit-Adds ps n i next h = elim (Bool-cases (i == length ps)) [
  | inl at_end ↦
      let e : get_elem? ps i ≡ none = get_elem?-none_of ps i (ground arith) in
      rw (at_end, e) (next, refl, λ j. refl)
  | inr inside ↦ rw inside (go (get_elem? ps i) refl inside)
]
  where
    go :
        (o : Option NameSectionPattern)
        → get_elem? ps i ≡ o
        → (i == length ps) ≡ false
        → Adds (extend o n i next) (moves o n i) next
    go none e inside = absurd (grind (arith, get_elem?-none ps i e))
    go (some p) e inside = extend-Adds p n i next

-- The leaves that one of the leaves `is` leads to.
abbrev pub moves_any : List NameSectionPattern → String → List ℕ → ℕ → Bool
moves_any ps n [] j = false
moves_any ps n (i ∷ is) j = moves (get_elem? ps i) n i j || moves_any ps n is j

-- Every leaf lies within the patterns, or just behind them.
abbrev pub AllWithin : List NameSectionPattern → List ℕ → Type 0
AllWithin ps [] = Unit {0}
AllWithin ps (i ∷ is) = (i ≤ length ps) × AllWithin ps is

pub visit_all-Adds :
    (ps : List NameSectionPattern) (n : String) (is next : List ℕ)
    → AllWithin ps is
    → Adds (visit_all ps n is next) (moves_any ps n is) next
unfolding visit_all
visit_all-Adds ps n [] next h = (next, refl, λ j. refl)
visit_all-Adds ps n (i ∷ is) next h =
    let (next₁, e₁, adds₁) = visit-Adds ps n i next h.0 in
    let (next₂, e₂, adds₂) = visit_all-Adds ps n is next₁ h.1 in
    (next₂, rw e₁ e₂, λ j. ground (arith, adds₁ j, adds₂ j))
