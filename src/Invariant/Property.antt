-- ===== src/Invariant/Property.antt =====
-- service.go `setProp` and `SetProperty` against the invariant.
use govisor.Common.{
  String, Bool, true, false, ◌≡◌, refl, sym, ap, ◌∙◌, List, [], ◌∷◌, Option, none, some, arith, inl,
  inr, Bool-cases, Option-cases, ◌==◌, ==_iff, length-replicate,
}
use govisor.Common.Refs.{Ref, contains}
use govisor.World
use govisor.World.{
  World, Env, Props, Links, Rate, Property, Value, pos, negsuc, put, prop_restart, prop_rate_limit,
  prop_rate_period, prop_name, prop_description, prop_depends, prop_conflicts, prop_provides,
  prop_logger, prop_notify, prop_other,
}
use govisor.World.Steps.{bump}
use govisor.Service.Graph.{first_match, matches}
use govisor.Service.Property.{is_fixed, change, pass_on, settle, set_prop, set_property, is_sane}
use govisor.Invariant.Neighbours.{View, view}
use govisor.Invariant.Graph.{IsGraph, in_groups_of_group}
use govisor.Invariant.Paced.{RateOk}
use govisor.Invariant.Quiet.{Inv}

-- What the graph sees of a service.
record Alike (p q : Props) : Type 0 where
  name : p.name ≡ q.name
  provides : p.provides ≡ q.provides
  depends : p.depends ≡ q.depends

matches-Alike : (p q : Props) (d : String) → Alike p q → matches p d ≡ matches q d
unfolding matches
matches-Alike p q d a = rw (a.name, a.provides) refl

first_match-Alike :
    (p q : Props) (ds : List String) → Alike p q → first_match p ds ≡ first_match q ds
unfolding first_match
first_match-Alike p q [] a = refl
first_match-Alike p q (d ∷ ds) a = rw (matches-Alike p q d a, first_match-Alike p q ds a) refl

Alike-IsGraph :
    (ps qs : Ref → Props) (links : Ref → Links) (services : List Ref)
    → ((r : Ref) → contains r services ≡ true → Alike (qs r) (ps r))
    → IsGraph ps links services
    → IsGraph qs links services
Alike-IsGraph ps qs links services a g = record {
  dual = g.dual;
  inside = g.inside;
  parent_inside = g.parent_inside;
  irreflexive = g.irreflexive;
  symmetric = g.symmetric;
  conflict_inside = g.conflict_inside;
  managed = g.managed;
  keyed = λ t d m h. g.keyed t d m (rw (a t m).depends at h);
  via = λ t q d h.
      let near = in_groups_of_group d q (links t).parents h in
      let tm = g.inside q t (sym (g.dual q t) ∙ near) in
      let qm = g.parent_inside q t near in
      rw ((a t tm).depends, first_match-Alike (qs q) (ps q) (ps t).depends (a q qm))
        (g.via t q d h);
}

Alike-Inv :
    (u : View) (qs : Ref → Props)
    → ((r : Ref) → contains r u.services ≡ true → Alike (qs r) (u.props r))
    → Inv u
    → Inv (record u { props = qs })
Alike-Inv u qs a i = record {
  graph = Alike-IsGraph u.props qs u.links u.services a i.graph;
  sound = i.sound;
  still = i.still;
  healthy = i.healthy;
  exclusive = i.exclusive;
  detached = i.detached;
  rates = i.rates;
}

rated-Inv :
    (u : View) (s : Ref) (x : Rate) → RateOk x → Inv u → Inv (record u { rate = put u.rate s x })
rated-Inv u s x ok i = record {
  graph = i.graph;
  sound = i.sound;
  still = i.still;
  healthy = i.healthy;
  exclusive = i.exclusive;
  detached = i.detached;
  rates =
      λ r. elim (Bool-cases (s == r)) [ inl same ↦ rw same ok | inr other ↦ rw other (i.rates r) ];
}

-- The properties of a service that is not in the manager.
outside_Alike :
    (u : View) (s : Ref) (p : Props)
    → Inv u
    → (u.links s).managed ≡ false
    → (r : Ref) → contains r u.services ≡ true
    → Alike (put u.props s p r) (u.props r)
outside_Alike u s p i out r m =
    let far : (s == r) ≡ false = ground (arith, i.graph.managed s, out, m, ==_iff s r) in
    rw far (record { name = refl; provides = refl; depends = refl })

-- What an operation that may refuse makes, if it makes anything.
data Holds (P : World → Type 0) : Option World → Type 0 where
  nothing : Holds P none
  just : {w : World} → P w → Holds P (some w)

module _ (s : Ref) (w : World) (i : Inv (view w)) where
  restarts_Alike :
      (b : Bool) (r : Ref)
      → contains r w.services ≡ true
      → Alike (put w.props s (record (w.props s) { restart = b }) r) (w.props r)
  restarts_Alike b r m = elim (Bool-cases (s == r)) [
    | inl same ↦
        let e : s ≡ r = (==_iff s r).0 same in
        rw same (record {
          name = ap (λ k. (w.props k).name) e;
          provides = ap (λ k. (w.props k).provides) e;
          depends = ap (λ k. (w.props k).depends) e;
        })
    | inr other ↦ rw other (record { name = refl; provides = refl; depends = refl })
  ]

  renamed-Inv :
      (p : Props) → (w.links s).managed ≡ false → Inv (record (view w) { props = put w.props s p })
  renamed-Inv p out = Alike-Inv (view w) _ (outside_Alike (view w) s p i out) i

  change-Holds :
      (p : Property) (v : Value)
      → (is_fixed p ≡ true → (w.links s).managed ≡ false)
      → is_sane p v ≡ true
      → Holds (λ x. Inv (view x)) (change s p v w)
  unfolding change is_fixed is_sane
  change-Holds prop_restart (World.bool_value b) out ok =
      just (Alike-Inv (view w) _ (restarts_Alike b) i)
  change-Holds prop_restart v out ok = nothing
  change-Holds prop_rate_limit (World.int_value (pos n)) out ok =
      just (rated-Inv (view w) s _ (ap pos (sym (length-replicate n 0))) i)
  change-Holds prop_rate_limit (World.int_value (negsuc n)) out ok = absurd (ground (arith, ok))
  change-Holds prop_rate_limit v out ok = nothing
  change-Holds prop_rate_period (World.duration_value n) out ok =
      just (rated-Inv (view w) s _ (i.rates s) i)
  change-Holds prop_rate_period v out ok = nothing
  change-Holds prop_name (World.string_value x) out ok = just (renamed-Inv _ (out refl))
  change-Holds prop_name v out ok = nothing
  change-Holds prop_description (World.string_value x) out ok = just (renamed-Inv _ (out refl))
  change-Holds prop_description v out ok = nothing
  change-Holds prop_conflicts (World.strings_value x) out ok = just (renamed-Inv _ (out refl))
  change-Holds prop_conflicts v out ok = nothing
  change-Holds prop_depends (World.strings_value x) out ok = just (renamed-Inv _ (out refl))
  change-Holds prop_depends v out ok = nothing
  change-Holds prop_provides (World.strings_value x) out ok = just (renamed-Inv _ (out refl))
  change-Holds prop_provides v out ok = nothing
  change-Holds p v out ok = nothing

passed-Inv :
    (s : Ref) (p : Property) (v : Value) (w : World) (o : Option World)
    → Inv (view w)
    → Holds (λ x. Inv (view x)) o
    → Inv (view (pass_on s p v w o).1)
unfolding pass_on
passed-Inv s p v w _ i nothing = i
passed-Inv s p v w _ i (just j) = j

settle-Inv :
    (env : Env) (s : Ref) (p : Property) (v : Value) (w : World)
    → Inv (view w)
    → (is_fixed p ≡ true → (w.links s).managed ≡ false)
    → is_sane p v ≡ true
    → Inv (view (settle env s p v w).1)
unfolding settle pass_on
settle-Inv env s prop_logger (World.logger_value x) w i out ok =
    elim (Bool-cases (w.flags s).enabled) [ inl on ↦ rw on i | inr off ↦ rw off i ]
settle-Inv env s prop_logger v w i out ok = i
settle-Inv env s prop_notify (World.func_value x) w i out ok = i
settle-Inv env s prop_notify v w i out ok = i
settle-Inv env s (prop_other n) v w i out ok = i
settle-Inv env s p v w i out ok =
    passed-Inv s p v w (change s p v w) i (change-Holds s w i p v out ok)

set_prop-Inv :
    (env : Env) (s : Ref) (p : Property) (v : Value) (w : World)
    → Inv (view w)
    → is_sane p v ≡ true
    → Inv (view (set_prop env s p v w).1)
unfolding set_prop
set_prop-Inv env s p v w i ok = elim (Bool-cases (w.links s).managed) [
  | inr out ↦ rw out (settle-Inv env s p v w i (λ h. out) ok)
  | inl member ↦ elim (Bool-cases (is_fixed p)) [
    | inl shut ↦ rw (member, shut) i
    | inr open_ ↦
        rw (member, open_)
          (settle-Inv env s p v (bump env s w) i (λ h. ground (arith, h, open_)) ok)
  ]
]

-- If the invariant holds, SetProperty of any property and any value, but a negative rate limit or a
-- nil logger, keeps it where it returns, whatever the provider answers.
pub set_property-Inv :
    (env : Env) (s : Ref) (p : Property) (v : Value) (w : World)
    → Inv (view w)
    → is_sane p v ≡ true
    → Inv (view (set_property env s p v w).1)
unfolding set_property
set_property-Inv env s p v w i ok = elim (Option-cases (set_prop env s p v w).0) [
  | inl e ↦ rw (e, set_property) (set_prop-Inv env s p v w i ok)
  | inr (x, e) ↦ rw (e, set_property) (set_prop-Inv env s p v w i ok)
]
