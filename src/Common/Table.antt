-- ===== src/Common/Table.antt =====
-- Maps by strings, as lists of entries.
use Prim.Native.String.{String}
use mathlib.Core.Option.{Option, none, some}
use mathlib.Core.List.{List, [], ◌∷◌}
use mathlib.Core.Path.{◌≡◌}
use native.Mathlib.Omega.{arith}
use text.Mathlib.TextEquality.{eq_iff}
use govisor.Common.Tests.{str_eq, if◌then◌else◌}

-- A Go map by strings, and its operations.
abbrev pub Table : Type 0 → Type 0
Table A = List (String × A)

module _ {A : Type 0} where
  unfoldable pub lookup : String → Table A → Option A
  lookup n [] = none
  lookup n ((k, x) ∷ t) = if str_eq k n then some x else lookup n t

  unfoldable pub delete : String → Table A → Table A
  delete n [] = []
  delete n ((k, x) ∷ t) = let rest = delete n t in if str_eq k n then rest else (k, x) ∷ rest

  unfoldable pub store : String → A → Table A → Table A
  unfolding delete
  store n x t = (n, x) ∷ delete n t

  pub lookup-delete :
      (n k : String) (t : Table A)
      → lookup n (delete k t) ≡ (if str_eq k n then none else lookup n t)
  unfolding lookup delete
  lookup-delete n k [] = ground arith
  lookup-delete n k ((j, x) ∷ t) =
      ground (arith, lookup-delete n k t, eq_iff j k, eq_iff j n, eq_iff k n)

  pub lookup-store :
      (n k : String) (x : A) (t : Table A)
      → lookup n (store k x t) ≡ (if str_eq k n then some x else lookup n t)
  unfolding lookup store
  lookup-store n k x t = ground (arith, lookup-delete n k t)
