-- ===== src/Names/Moves.antt =====
-- One section of a name against the patterns: the leaves that a section leads to carry the match of
-- the rest of the name, and no other leaf does.
use krossbar_bus.Common.{
  ℕ, suc, ◌≤◌, ◌<◌, ◌+◌, String, ◌≡◌, sym, subst, inl, inr, true, some, List, [], ◌∷◌, arith,
  length, get_elem?, drop, ◌==◌, eq_iff, contains, Bool-cases,
}
use krossbar_bus.Names.{NameSectionPattern, any_name, any_sections, section}
use krossbar_bus.Names.Spec.{Matches, any_one, itself, last_one, one_more, moves, drop-cases}
use krossbar_bus.Names.Walk.{moves_any, get_elem?-lt}

suc_of_eq : (i j : ℕ) → (i + 1 == j) ≡ true → j ≡ suc i
suc_of_eq i j h = ground arith

not-Matches-nil : {n : String} {ns : List String} → ¬ Matches [] (n ∷ ns)
not-Matches-nil m = elim m [ ]

module _ (ps : List NameSectionPattern) (n : String) where
  pub moves_any-witness :
      (is : List ℕ) (j : ℕ)
      → moves_any ps n is j ≡ true
      → (i : ℕ) × (contains i is ≡ true) × (moves (get_elem? ps i) n i j ≡ true)
  unfolding contains
  moves_any-witness [] j h = cc
  moves_any-witness (i ∷ is) j h = elim (Bool-cases (moves (get_elem? ps i) n i j)) [
    | inl here ↦ (i, ground arith, here)
    | inr there ↦
        let (k, member, move) = moves_any-witness is j (ground arith) in (k, ground arith, move)
  ]

  pub moves_any_intro :
      (is : List ℕ) (i j : ℕ)
      → contains i is ≡ true
      → moves (get_elem? ps i) n i j ≡ true
      → moves_any ps n is j ≡ true
  unfolding contains
  moves_any_intro [] i j member move = cc
  moves_any_intro (k ∷ is) i j member move = elim (Bool-cases (contains i is)) [
    | inl there ↦ ground (arith, moves_any_intro is i j there move)
    | inr here ↦
        let e : k ≡ i = ground arith in
        let move' : moves (get_elem? ps k) n k j ≡ true = rw e move in ground arith
  ]

  pub moves-within : (i j : ℕ) → moves (get_elem? ps i) n i j ≡ true → j ≤ length ps
  moves-within i j h = elim (drop-cases i ps) [
    | inl (_, e) ↦ cc (rw e at h)
    | inr (any_name, e, d) ↦
        let h' = rw e at h in omega (arith, get_elem?-lt ps i e, suc_of_eq i j h')
    | inr (any_sections, e, d) ↦
        let h' = rw e at h in let b : i < length ps = get_elem?-lt ps i e in ground arith
    | inr (section p, e, d) ↦
        let h' = rw e at h in let b : i < length ps = get_elem?-lt ps i e in ground arith
  ]

  at_leaf : (ns : List String) {j k : ℕ} → j ≡ k → Matches (drop j ps) ns → Matches (drop k ps) ns
  at_leaf ns e = subst (λ x. Matches (drop x ps) ns) e

  -- A section of the name is matched by one move, and the rest of the name from the leaf it reaches.
  move-Matches :
      (p : NameSectionPattern) (i j : ℕ) (ns : List String)
      → drop i ps ≡ p ∷ drop (suc i) ps
      → moves (some p) n i j ≡ true
      → Matches (drop j ps) ns
      → Matches (p ∷ drop (suc i) ps) (n ∷ ns)
  move-Matches any_name i j ns d h m = any_one (at_leaf ns (suc_of_eq i j h) m)
  move-Matches any_sections i j ns d h m = elim (Bool-cases (i + 1 == j)) [
    | inl e ↦ last_one (at_leaf ns (suc_of_eq i j e) m)
    | inr e ↦ one_more (subst (λ x. Matches x ns) d (at_leaf ns (ground arith) m))
  ]
  move-Matches (section p) i j ns d h m =
      itself ((eq_iff p n).0 (ground arith)) (at_leaf ns {k = suc i} (ground arith) m)

  Matches-move :
      (p : NameSectionPattern) (i : ℕ) (ns : List String)
      → drop i ps ≡ p ∷ drop (suc i) ps
      → Matches (p ∷ drop (suc i) ps) (n ∷ ns)
      → (j : ℕ) × (moves (some p) n i j ≡ true) × Matches (drop j ps) ns
  Matches-move any_name i ns d (any_one m) = (suc i, ground arith, m)
  Matches-move any_sections i ns d (last_one m) = (suc i, ground arith, m)
  Matches-move any_sections i ns d (one_more m) =
      (i, ground arith, subst (λ x. Matches x ns) (sym d) m)
  Matches-move (section p) i ns d (itself e m) = (suc i, ground (arith, (eq_iff p n).1 e), m)

  pub moves-Matches :
      (i j : ℕ) (ns : List String)
      → moves (get_elem? ps i) n i j ≡ true
      → Matches (drop j ps) ns
      → Matches (drop i ps) (n ∷ ns)
  moves-Matches i j ns h m = elim (drop-cases i ps) [
    | inl (_, e) ↦ cc (rw e at h)
    | inr (p, e, d) ↦ rw d (move-Matches p i j ns d (rw e at h) m)
  ]

  pub Matches-moves :
      (i : ℕ) (ns : List String)
      → Matches (drop i ps) (n ∷ ns)
      → (j : ℕ) × (moves (get_elem? ps i) n i j ≡ true) × Matches (drop j ps) ns
  Matches-moves i ns m = elim (drop-cases i ps) [
    | inl (d, e) ↦ absurd (not-Matches-nil (rw d at m))
    | inr (p, e, d) ↦ rw e (Matches-move p i ns d (rw d at m))
  ]
