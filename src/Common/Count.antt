-- ===== src/Common/Count.antt =====
-- How many references of a list pass a test: the measure of the recursions over the graph.
use govisor.Common.Tests.{if◌then◌else◌}
use govisor.Common.Lists.{length}
use govisor.Common.Refs.{Ref, contains}
use Prim.Native.Nat.{ℕ, suc, ◌≤◌, ◌<◌}
use mathlib.Core.Path.{◌≡◌}
use mathlib.Core.Bool.{Bool, true, false}
use mathlib.Core.List.{List, [], ◌∷◌}
use native.Mathlib.Omega.{arith}

pub count : (Ref → Bool) → List Ref → ℕ
count p [] = 0
count p (x ∷ xs) = let rest = count p xs in if p x then suc rest else rest

pub count-le-length : (p : Ref → Bool) (xs : List Ref) → count p xs ≤ length xs
unfolding count
count-le-length p [] = omega arith
count-le-length p (x ∷ xs) = ground (arith, count-le-length p xs)

module _ (p q : Ref → Bool) (below : (r : Ref) → q r ≡ true → p r ≡ true) where
  pub count_mono : (xs : List Ref) → count q xs ≤ count p xs
  unfolding count
  count_mono [] = omega arith
  count_mono (x ∷ xs) = ground (arith, count_mono xs, below x)

  pub count-lt :
      (s : Ref) (xs : List Ref)
      → contains s xs ≡ true
      → p s ≡ true
      → q s ≡ false
      → count q xs < count p xs
  unfolding count contains
  count-lt s [] h hp hq = ground arith
  count-lt s (x ∷ xs) h hp hq = ground (arith, count_mono xs, count-lt s xs, below x)
