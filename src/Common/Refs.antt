-- ===== src/Common/Refs.antt =====
-- References to services, and finite sets of them as lists: a Go `map[*Service]bool`.
use govisor.Common.Tests.{◌==◌, if◌then◌else◌}
use Prim.Native.Nat.{ℕ}
use mathlib.Core.Path.{◌≡◌, refl}
use mathlib.Core.Bool.{Bool, true, false}
use mathlib.Core.List.{List, [], ◌∷◌, ◌++◌}
use native.Mathlib.Omega.{arith}

-- The address of a `Service`.
abbrev pub Ref : Type 0
Ref = ℕ

unfoldable pub contains : Ref → List Ref → Bool
contains r [] = false
contains r (x ∷ xs) = if x == r then true else contains r xs

-- `m[r] = true`
unfoldable pub insert : Ref → List Ref → List Ref
unfolding contains
insert r xs = if contains r xs then xs else xs ++ (r ∷ [])

-- `delete(m, r)`
unfoldable pub remove : Ref → List Ref → List Ref
remove r [] = []
remove r (x ∷ xs) = if x == r then remove r xs else x ∷ remove r xs

pub contains-append_one :
    (r x : Ref) (xs : List Ref)
    → contains x (xs ++ (r ∷ [])) ≡ (if r == x then true else contains x xs)
unfolding contains
contains-append_one r x [] = refl
contains-append_one r x (y ∷ ys) = ground (arith, contains-append_one r x ys)

pub contains-insert :
    (r x : Ref) (xs : List Ref)
    → contains x (insert r xs) ≡ (if r == x then true else contains x xs)
unfolding insert
contains-insert r x xs = ground (arith, contains-append_one r x xs)

pub contains-remove :
    (r x : Ref) (xs : List Ref)
    → contains x (remove r xs) ≡ (if r == x then false else contains x xs)
unfolding contains remove
contains-remove r x [] = ground arith
contains-remove r x (y ∷ ys) = ground (arith, contains-remove r x ys)

pub contains-cons_self : (x : Ref) (xs : List Ref) → contains x (x ∷ xs) ≡ true
unfolding contains
contains-cons_self x xs = ground arith

pub contains-cons_tail :
    (y x : Ref) (xs : List Ref) → contains y xs ≡ true → contains y (x ∷ xs) ≡ true
unfolding contains
contains-cons_tail y x xs h = ground arith

pub contains-append :
    (x : Ref) (xs ys : List Ref)
    → contains x (xs ++ ys) ≡ (if contains x xs then true else contains x ys)
unfolding contains
contains-append x [] ys = refl
contains-append x (y ∷ xs) ys = ground (arith, contains-append x xs ys)
