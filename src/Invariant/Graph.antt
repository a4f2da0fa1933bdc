-- ===== src/Invariant/Graph.antt =====
-- What holds of the graph of dependencies and conflicts.
use govisor.Common.{
  String, Bool, true, false, ◌≡◌, refl, List, [], ◌∷◌, some, arith, if◌then◌else◌, str_eq, eq_iff,
  ◌==◌,
}
use govisor.Common.Refs.{Ref, contains, contains-insert, contains-remove}
use govisor.World.{Props, Links, Groups}
use govisor.Service.Graph.{first_match, fresh_group, fresh_groups, add_parent, drop_parent}
use govisor.Invariant.Neighbours.{in_groups}

unfoldable pub mem_str : String → List String → Bool
mem_str d [] = false
mem_str d (x ∷ xs) = if str_eq x d then true else mem_str d xs

unfoldable pub has_key : String → Groups → Bool
has_key d [] = false
has_key d ((k, g) ∷ gs) = if str_eq k d then true else has_key d gs

-- Whether a service stands in the group of the dependency `d`.
unfoldable pub in_group : String → Ref → Groups → Bool
in_group d q [] = false
in_group d q ((k, g) ∷ gs) =
    if str_eq k d then (if contains q g then true else in_group d q gs) else in_group d q gs

-- The graph: who depends on whom and who conflicts with whom, seen alike from both ends and among
-- the services of the manager only. Each dependency has its group, and a service stands in the
-- group of the first dependency that it matches.
pub record IsGraph (props : Ref → Props) (links : Ref → Links) (services : List Ref) : Type 0 where
  pub dual : (s t : Ref) → in_groups s (links t).parents ≡ contains t (links s).children
  pub inside : (s t : Ref) → contains t (links s).children ≡ true → contains t services ≡ true
  pub parent_inside :
      (s t : Ref) → in_groups s (links t).parents ≡ true → contains s services ≡ true
  pub irreflexive : (s : Ref) → contains s (links s).incompat ≡ false
  pub symmetric : (s t : Ref) → contains t (links s).incompat ≡ contains s (links t).incompat
  pub conflict_inside :
      (s t : Ref) → contains t (links s).incompat ≡ true → contains t services ≡ true
  pub managed : (r : Ref) → (links r).managed ≡ contains r services
  pub keyed :
      (t : Ref) (d : String)
      → contains t services ≡ true
      → mem_str d (props t).depends ≡ true
      → has_key d (links t).parents ≡ true
  pub via :
      (t q : Ref) (d : String)
      → in_group d q (links t).parents ≡ true
      → first_match (props q) (props t).depends ≡ some d

-- The effect of the operations on groups.
pub in_groups-add_parent :
    (d : String) (q x : Ref) (gs : Groups)
    → in_groups x (add_parent d q gs)
      ≡ (if has_key d gs then (if q == x then true else in_groups x gs) else in_groups x gs)
unfolding in_groups add_parent has_key
in_groups-add_parent d q x [] = refl
in_groups-add_parent d q x ((k, g) ∷ gs) =
    ground (arith, in_groups-add_parent d q x gs, contains-insert q x g)

pub has_key-add_parent :
    (e d : String) (q : Ref) (gs : Groups) → has_key e (add_parent d q gs) ≡ has_key e gs
unfolding has_key add_parent
has_key-add_parent e d q [] = refl
has_key-add_parent e d q ((k, g) ∷ gs) = ground (arith, has_key-add_parent e d q gs)

pub in_group-add_parent :
    (e d : String) (q x : Ref) (gs : Groups)
    → in_group e x (add_parent d q gs) ≡ true
    → (if q == x then (if str_eq d e then true else in_group e x gs) else in_group e x gs) ≡ true
unfolding in_group add_parent
in_group-add_parent e d q x [] h = ground arith
in_group-add_parent e d q x ((k, g) ∷ gs) h = ground (
  arith,
  in_group-add_parent e d q x gs,
  contains-insert q x g,
  eq_iff k d,
  eq_iff k e,
  eq_iff d e,
)

pub in_groups-drop_parent :
    (s x : Ref) (gs : Groups)
    → in_groups x (drop_parent s gs) ≡ (if s == x then false else in_groups x gs)
unfolding in_groups drop_parent
in_groups-drop_parent s x [] = ground arith
in_groups-drop_parent s x ((k, g) ∷ gs) =
    ground (arith, in_groups-drop_parent s x gs, contains-remove s x g)

pub has_key-drop_parent :
    (e : String) (s : Ref) (gs : Groups) → has_key e (drop_parent s gs) ≡ has_key e gs
unfolding has_key drop_parent
has_key-drop_parent e s [] = refl
has_key-drop_parent e s ((k, g) ∷ gs) = ground (arith, has_key-drop_parent e s gs)

pub in_group-drop_parent :
    (e : String) (s x : Ref) (gs : Groups)
    → in_group e x (drop_parent s gs) ≡ (if s == x then false else in_group e x gs)
unfolding in_group drop_parent
in_group-drop_parent e s x [] = ground arith
in_group-drop_parent e s x ((k, g) ∷ gs) =
    ground (arith, in_group-drop_parent e s x gs, contains-remove s x g)

pub in_groups-fresh_group :
    (d : String) (x : Ref) (gs : Groups)
    → in_groups x gs ≡ false
    → in_groups x (fresh_group d gs) ≡ false
unfolding in_groups fresh_group contains
in_groups-fresh_group d x [] h = refl
in_groups-fresh_group d x ((k, g) ∷ gs) h = ground (arith, in_groups-fresh_group d x gs)

pub in_groups-fresh_groups :
    (ds : List String) (x : Ref) (gs : Groups)
    → in_groups x gs ≡ false
    → in_groups x (fresh_groups ds gs) ≡ false
unfolding fresh_groups
in_groups-fresh_groups [] x gs h = h
in_groups-fresh_groups (d ∷ ds) x gs h =
    in_groups-fresh_groups ds x (fresh_group d gs) (in_groups-fresh_group d x gs h)

has_key-fresh_group :
    (e d : String) (gs : Groups)
    → has_key e (fresh_group d gs) ≡ (if str_eq d e then true else has_key e gs)
unfolding has_key fresh_group
has_key-fresh_group e d [] = refl
has_key-fresh_group e d ((k, g) ∷ gs) =
    ground (arith, has_key-fresh_group e d gs, eq_iff k d, eq_iff k e, eq_iff d e)

pub has_key-fresh_groups :
    (ds : List String) (e : String) (gs : Groups)
    → has_key e (fresh_groups ds gs) ≡ (if mem_str e ds then true else has_key e gs)
unfolding fresh_groups mem_str
has_key-fresh_groups [] e gs = refl
has_key-fresh_groups (d ∷ ds) e gs =
    ground (arith, has_key-fresh_groups ds e (fresh_group d gs), has_key-fresh_group e d gs)

pub in_groups_of_group :
    (d : String) (q : Ref) (gs : Groups) → in_group d q gs ≡ true → in_groups q gs ≡ true
unfolding in_group in_groups
in_groups_of_group d q [] h = h
in_groups_of_group d q ((k, g) ∷ gs) h = ground (arith, in_groups_of_group d q gs)

pub first_match-mem :
    (p : Props) (ds : List String) (d : String) → first_match p ds ≡ some d → mem_str d ds ≡ true
unfolding first_match mem_str
first_match-mem p [] d e = ground arith
first_match-mem p (x ∷ ds) d e = ground (arith, first_match-mem p ds d, eq_iff x d)
