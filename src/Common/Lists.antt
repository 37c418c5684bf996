-- ===== src/Common/Lists.antt =====
-- List operations over the native numbers, and sets of numbers as lists.
use Prim.Native.Nat.{ℕ, zero, suc}
use mathlib.Core.Path.{◌≡◌}
use mathlib.Core.Bool.{Bool, false, ◌||◌}
use mathlib.Core.Option.{Option, none, some}
use mathlib.Core.List.{List, [], ◌∷◌}
use native.Mathlib.Omega.{arith}
use krossbar_bus.Common.Tests.{◌==◌, if◌then◌else◌}

module _ {ℓ} {A : Type ℓ} where
  abbrev pub length : List A → ℕ
  length [] = 0
  length (x ∷ xs) = suc (length xs)

  abbrev pub get_elem? : List A → ℕ → Option A
  get_elem? [] i = none
  get_elem? (x ∷ xs) zero = some x
  get_elem? (x ∷ xs) (suc i) = get_elem? xs i

  abbrev pub drop : ℕ → List A → List A
  drop zero xs = xs
  drop (suc n) [] = []
  drop (suc n) (x ∷ xs) = drop n xs

-- Membership in a list of numbers that stands for a set, and Rust's `HashSet::insert`.
unfoldable pub contains : ℕ → List ℕ → Bool
contains i [] = false
contains i (x ∷ xs) = x == i || contains i xs

unfoldable pub insert : ℕ → List ℕ → List ℕ
insert i xs = if contains i xs then xs else i ∷ xs

pub contains-insert : (i j : ℕ) (xs : List ℕ) → contains j (insert i xs) ≡ (i == j || contains j xs)
unfolding insert contains
contains-insert i j xs = ground arith
