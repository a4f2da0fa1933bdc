-- ===== src/Invariant/Supply.antt =====
-- What the invariant says of the dependencies of a service that runs.
use govisor.Common.{
  Bool, false, not, ◌&&◌, ◌||◌, if◌then◌else◌, eq_iff, subst, sym, refl, ◌==◌, String, true, ◌≡◌,
  List, [], ◌∷◌, some, arith, Bool-cases, inl, inr, ==_iff, str_eq,
}
use govisor.Common.Refs.{Ref, contains}
use govisor.World.{Flags, Props, Groups}
use govisor.Service.Runnable.{is_up, satisfied, all_satisfied}
use govisor.Service.Graph.{first_match, matches}
use govisor.Invariant.Neighbours.{View, runnable_parts}
use govisor.Invariant.Graph.{has_key, in_group, in_groups_of_group, mem_str}
use govisor.Invariant.Quiet.{Inv}

module _ (f : Ref → Flags) where
  up_of_satisfied :
      (ds : List Ref)
      → satisfied f ds ≡ true
      → (q : Ref) × (contains q ds ≡ true) × (is_up (f q) ≡ true)
  unfolding satisfied contains
  up_of_satisfied [] h = absurd (ground (arith, h))
  up_of_satisfied (d ∷ ds) h = elim (Bool-cases (is_up (f d))) [
    | inl up ↦ (d, ground (arith, ==_iff d d), up)
    | inr down ↦ let (q, m, up) = up_of_satisfied ds (rw down at h) in (q, ground (arith, m), up)
  ]

  up_of_group :
      (d : String) (gs : Groups)
      → all_satisfied f gs ≡ true
      → has_key d gs ≡ true
      → (q : Ref) × (in_group d q gs ≡ true) × (is_up (f q) ≡ true)
  unfolding all_satisfied has_key in_group
  up_of_group d [] h k = absurd (ground (arith, k))
  up_of_group d ((e, g) ∷ gs) h k = elim (Bool-cases (str_eq e d)) [
    | inl here ↦
        let (q, m, up) = up_of_satisfied g (ground (arith, h)) in (q, ground (arith, here, m), up)
    | inr there ↦
        let (q, m, up) = up_of_group d gs (ground (arith, h)) (ground (arith, k, there)) in
        (q, ground (arith, there, m), up)
  ]

-- A service that is up, for a name that a running service depends on.
running-IsUp :
    (u : View) (t : Ref) (d : String)
    → Inv u
    → (u.flags t).running ≡ true
    → mem_str d (u.props t).depends ≡ true
    → (q : Ref) × (contains q u.services ≡ true)
      × (is_up (u.flags q) ≡ true)
      × (first_match (u.props q) (u.props t).depends ≡ some d)
running-IsUp u t d i on m =
    let (st, en, sat, free) = runnable_parts u.flags (u.links t) t (i.sound t on) in
    let here : contains t u.services ≡ true = ground (arith, i.graph.managed t, i.detached t, en) in
    let (q, g, up) = up_of_group u.flags d (u.links t).parents sat (i.graph.keyed t d here m) in
    (
      q,
      i.graph.parent_inside q t (in_groups_of_group d q (u.links t).parents g),
      up,
      i.graph.via t q d g,
    )

-- Whether a service is there for each name that a running service depends on.
abbrev is_well : Flags → Bool
is_well f = (f.enabled && f.running) && (not f.stopping && not f.failed)

unfoldable pub any_well : (Ref → Props) → (Ref → Flags) → String → List Ref → Bool
any_well ps f d [] = false
any_well ps f d (q ∷ qs) = if matches (ps q) d && is_well (f q) then true else any_well ps f d qs

unfoldable pub each_supplied : (Ref → Props) → (Ref → Flags) → List Ref → List String → Bool
unfolding any_well
each_supplied ps f ss [] = true
each_supplied ps f ss (d ∷ ds) = if any_well ps f d ss then each_supplied ps f ss ds else false

unfoldable pub all_supplied : (Ref → Props) → (Ref → Flags) → List Ref → List Ref → Bool
unfolding each_supplied
all_supplied ps f ss [] = true
all_supplied ps f ss (t ∷ ts) =
    if not (f t).running || each_supplied ps f ss (ps t).depends
    then all_supplied ps f ss ts
    else false

first_match-matches :
    (p : Props) (ds : List String) (d : String) → first_match p ds ≡ some d → matches p d ≡ true
unfolding first_match
first_match-matches p [] d h = ground (arith, h)
first_match-matches p (e ∷ ds) d h = elim (Bool-cases (matches p e)) [
  | inl m ↦ let same : e ≡ d = ground (arith, h, m) in subst (λ k. matches p k ≡ true) same m
  | inr m ↦ first_match-matches p ds d (ground (arith, h, m))
]

well_of_up : (f : Flags) → is_up f ≡ true → is_well f ≡ true
well_of_up f h = ground (arith, h)

contains-any_well :
    (ps : Ref → Props) (f : Ref → Flags) (d : String) (q : Ref) (ss : List Ref)
    → contains q ss ≡ true
    → matches (ps q) d ≡ true
    → is_well (f q) ≡ true
    → any_well ps f d ss ≡ true
unfolding any_well contains
contains-any_well ps f d q [] m a b = ground (arith, m)
contains-any_well ps f d q (s ∷ ss) m a b = elim (Bool-cases (s == q)) [
  | inl e ↦
      let same : s ≡ q = (==_iff s q).0 e in
      rw
        (
          subst (λ k. matches (ps k) d ≡ true) (sym same) a,
          subst (λ k. is_well (f k) ≡ true) (sym same) b,
        )
        refl
  | inr e ↦ ground (arith, e, m, contains-any_well ps f d q ss, a, b)
]

module _ (u : View) (i : Inv u) where
  each_supplied-running :
      (t : Ref) (ds : List String)
      → (u.flags t).running ≡ true
      → ((d : String) → mem_str d ds ≡ true → mem_str d (u.props t).depends ≡ true)
      → each_supplied u.props u.flags u.services ds ≡ true
  unfolding each_supplied mem_str
  each_supplied-running t [] on h = refl
  each_supplied-running t (d ∷ ds) on h =
      let (q, m, up, via) = running-IsUp u t d i on (h d (ground (arith, eq_iff d d))) in
      let here =
        contains-any_well u.props u.flags d q u.services m
          (first_match-matches (u.props q) (u.props t).depends d via) (well_of_up (u.flags q) up) in
      rw here (each_supplied-running t ds on (λ e k. h e (ground (arith, k))))

  pub Inv-all_supplied : (ts : List Ref) → all_supplied u.props u.flags u.services ts ≡ true
  unfolding all_supplied
  Inv-all_supplied [] = refl
  Inv-all_supplied (t ∷ ts) = elim (Bool-cases (u.flags t).running) [
    | inr off ↦ rw off (Inv-all_supplied ts)
    | inl on ↦
        rw (on, each_supplied-running t (u.props t).depends on (λ d h. h)) (Inv-all_supplied ts)
  ]
