-- ===== src/Names/Decide.antt =====
-- `NamePattern::matches` decides whether a service name matches, in whatever order the sets of
-- leaves are iterated.
use krossbar_bus.Common.{
  ℕ, zero, suc, ◌≤◌, String, ◌≡◌, refl, sym, subst, ◌∙◌, Bool, true, false, ◌||◌, ◌↔◌, Option, none,
  some, List, [], ◌∷◌, arith, length, drop, contains, insert, Result, ok, err, contains_char, split,
}
use krossbar_bus.Names.{NameSectionPattern, NamePattern, NameError, Order, walk, matches, has_empty}
use krossbar_bus.Names.Spec.{Matches, nothing}
use krossbar_bus.Names.Walk.{moves_any, AllWithin, visit_all-Adds}
use krossbar_bus.Names.Moves.{
  moves_any-witness, moves_any_intro, moves-within, moves-Matches, Matches-moves,
}

-- Iterating over a set visits its members and nothing else.
abbrev pub Visits : Order → Type 0
Visits order = (k : ℕ) (xs : List ℕ) (j : ℕ) → contains j (order k xs) ≡ contains j xs

-- Some leaf carries a match of the sections that are left.
abbrev Carries : List NameSectionPattern → List ℕ → List String → Type 0
Carries ps leaves ns = (i : ℕ) × (contains i leaves ≡ true) × Matches (drop i ps) ns

abbrev Bounded : List NameSectionPattern → List ℕ → Type 0
Bounded ps leaves = (j : ℕ) → contains j leaves ≡ true → j ≤ length ps

Bounded-AllWithin :
    (ps : List NameSectionPattern) (leaves : List ℕ) → Bounded ps leaves → AllWithin ps leaves
unfolding contains
Bounded-AllWithin ps [] h = tt
Bounded-AllWithin ps (i ∷ is) h =
    (h i (ground arith), Bounded-AllWithin ps is (λ j member. h j (ground arith)))

drop-nil {ℓ} : {A : Type ℓ} (i : ℕ) (xs : List A) → drop i xs ≡ [] → length xs ≤ i
drop-nil zero [] e = omega arith
drop-nil zero (x ∷ xs) e = cc
drop-nil (suc i) [] e = omega arith
drop-nil (suc i) (x ∷ xs) e = omega (arith, drop-nil i xs e)

drop-length {ℓ} : {A : Type ℓ} (xs : List A) → drop (length xs) xs ≡ []
drop-length [] = refl
drop-length (x ∷ xs) = drop-length xs

Matches-nil : {ps : List NameSectionPattern} → Matches ps [] → ps ≡ []
Matches-nil nothing = refl

module _ (order : Order) (visits : Visits order) (ps : List NameSectionPattern) where
  -- One round of the outer loop: what the leaves before carry, the next leaves carry.
  module _ (n : String) (ns : List String) (leaves next : List ℕ)
      (adds : (j : ℕ)
        → contains j next ≡ (moves_any ps n (order (length ns) leaves) j || false)) where
    moved : (j : ℕ) → contains j next ≡ true → moves_any ps n (order (length ns) leaves) j ≡ true
    moved j h = ground (arith, adds j)

    Bounded-next : Bounded ps next
    Bounded-next j h =
        let (i, member, move) = moves_any-witness ps n _ j (moved j h) in moves-within ps n i j move

    Carries-next : Carries ps leaves (n ∷ ns) → Carries ps next ns
    Carries-next (i, member, m) =
        let (j, move, rest) = Matches-moves ps n i ns m in
        let member' = visits (length ns) leaves i ∙ member in
        (j, rw (adds j, moves_any_intro ps n _ i j member' move), rest)

    Carries-before : Carries ps next ns → Carries ps leaves (n ∷ ns)
    Carries-before (j, reached, m) =
        let (i, member, move) = moves_any-witness ps n _ j (moved j reached) in
        (i, sym (visits (length ns) leaves i) ∙ member, moves-Matches ps n i j ns move m)

  walk_lem :
      (ns : List String) (leaves : List ℕ)
      → Bounded ps leaves
      → (last : List ℕ) × (walk order ps ns leaves ≡ some last)
        × ((contains (length ps) last ≡ true) ↔ Carries ps leaves ns)
  unfolding walk contains
  walk_lem [] leaves bounded =
      (leaves, refl, (λ h. (length ps, h, rw (drop-length ps) nothing), arrived))
    where
      arrived : Carries ps leaves [] → contains (length ps) leaves ≡ true
      arrived (i, member, m) =
          let e : i ≡ length ps = omega (arith, bounded i member, drop-nil i ps (Matches-nil m)) in
          rw e at member
  walk_lem (n ∷ ns) leaves bounded =
      let is = order (length ns) leaves in
      let within : AllWithin ps is =
        Bounded-AllWithin ps is (λ j m. bounded j (sym (visits (length ns) leaves j) ∙ m)) in
      let (next, e, adds) = visit_all-Adds ps n is [] within in
      let (last, e', answer) = walk_lem ns next (Bounded-next n ns leaves next adds) in
      (
        last,
        rw e e',
        (
          λ h. Carries-before n ns leaves next adds (answer.0 h),
          λ c. answer.1 (Carries-next n ns leaves next adds c),
        ),
      )

-- An answer that is right about `G`: no panic and no error.
abbrev pub Answers : Type 0 → Option (Result Bool NameError) → Type 0
Answers G (some (ok true)) = G
Answers G (some (ok false)) = ¬ G
Answers G (some (err e)) = ⊥
Answers G none = ⊥

Answers-intro : {G : Type 0} (b : Bool) → (b ≡ true) ↔ G → Answers G (some (ok b))
Answers-intro true e = e.0 refl
Answers-intro false e = λ g. cc (e.1 g)

-- What a service name has to look like to be matched at all.
abbrev pub IsWellFormed : String → Type 0
IsWellFormed name = (contains_char "*" name ≡ false) × (has_empty (split "." name) ≡ false)

-- For a service name with no asterisk and no empty section, `matches` does not panic, returns no
-- error, and returns true exactly if the sections of the name match the pattern, whatever the
-- order in which each set of leaves is iterated.
pub matches-Answers :
    (order : Order) (pattern' : NamePattern) (name : String)
    → Visits order
    → IsWellFormed name
    → Answers (Matches pattern'.section_patterns (split "." name)) (matches order pattern' name)
unfolding matches contains insert
matches-Answers order pattern' name visits (no_asterisk, no_empty) =
    let ps = pattern'.section_patterns in
    let (last, e, answer) =
      walk_lem order visits ps (split "." name) (0 ∷ []) (λ j h. omega (arith, zero_only j h)) in
    rw (no_asterisk, no_empty, e)
      (Answers-intro (contains (length ps) last)
        (λ h. first (answer.0 h), λ m. answer.1 (0, refl, m)))
  where
    zero_only : (j : ℕ) → contains j (0 ∷ []) ≡ true → j ≡ 0
    zero_only j h = ground arith

    first :
        Carries pattern'.section_patterns (0 ∷ []) (split "." name)
        → Matches pattern'.section_patterns (split "." name)
    first (i, member, m) =
        subst (λ k. Matches (drop k pattern'.section_patterns) (split "." name))
          (zero_only i member) m
