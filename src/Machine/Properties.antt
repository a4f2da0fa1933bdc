-- ===== src/Machine/Properties.antt =====
-- service.go: what `GetProperty` answers behind `SetProperty`, and a rate limit below zero.
use govisor.Common.{
  ℕ, List, [], ◌≡◌, refl, ◌∙◌, Bool, true, false, Option, none, some, arith, Bool-cases,
  Option-cases, inl, inr, ==_iff, ◌==◌,
}
use govisor.Common.Refs.{Ref}
use govisor.World
use govisor.World.{
  World, Env, Property, Value, pos, negsuc, prop_restart, prop_rate_limit, prop_rate_period,
  prop_name, prop_description, prop_depends, prop_conflicts, prop_provides, prop_logger,
  prop_notify, prop_other,
}
use govisor.World.Steps.{bump}
use govisor.Service.Limit.{too_quickly, last_start, start_back, out_of_range}
use govisor.Service.Property.{
  is_fixed, change, pass_on, settle, set_prop, set_property, get_property,
}

-- Whether the service itself keeps a property.
unfoldable pub is_own : Property → Bool
is_own (prop_other n) = false
is_own p = true

-- A change that succeeds is read back.
data Reads (s : Ref) (p : Property) (v : Value) : Option World → Type 0 where
  refused : Reads s p v none
  kept : {x : World} → get_property s p x ≡ some v → Reads s p v (some x)

same_put : (s : Ref) → (s == s) ≡ true
same_put s = (==_iff s s).1 refl

change-Reads : (s : Ref) (p : Property) (v : Value) (w : World) → Reads s p v (change s p v w)
unfolding change get_property
change-Reads s prop_restart (World.bool_value b) w = kept (rw (same_put s) refl)
change-Reads s prop_restart v w = refused
change-Reads s prop_rate_limit (World.int_value n) w = kept (rw (same_put s) refl)
change-Reads s prop_rate_limit v w = refused
change-Reads s prop_rate_period (World.duration_value n) w = kept (rw (same_put s) refl)
change-Reads s prop_rate_period v w = refused
change-Reads s prop_name (World.string_value x) w = kept (rw (same_put s) refl)
change-Reads s prop_name v w = refused
change-Reads s prop_description (World.string_value x) w = kept (rw (same_put s) refl)
change-Reads s prop_description v w = refused
change-Reads s prop_conflicts (World.strings_value x) w = kept (rw (same_put s) refl)
change-Reads s prop_conflicts v w = refused
change-Reads s prop_depends (World.strings_value x) w = kept (rw (same_put s) refl)
change-Reads s prop_depends v w = refused
change-Reads s prop_provides (World.strings_value x) w = kept (rw (same_put s) refl)
change-Reads s prop_provides v w = refused
change-Reads s p v w = refused

-- Neither an event nor a reading of the environment changes a property.
get_property-traced :
    (s : Ref) (p : Property) (x : World) (t : List World.Event) (k : ℕ)
    → get_property s p (record x { trace = t; tick = k }) ≡ get_property s p x
unfolding get_property
get_property-traced s prop_restart x t k = refl
get_property-traced s p x t k = refl

get_property-told :
    (s : Ref) (p : Property) (v : Value) (o : Option World) (w : World)
    → Reads s p v o
    → (pass_on s p v w o).0 ≡ none
    → get_property s p (pass_on s p v w o).1 ≡ some v
unfolding pass_on get_property
get_property-told s p v _ w refused e = ground (arith, e)
get_property-told s p v _ w (kept {x = x} h) e = get_property-traced s p x _ _ ∙ h

get_property-settle :
    (env : Env) (s : Ref) (p : Property) (v : Value) (w : World)
    → is_own p ≡ true
    → (settle env s p v w).0 ≡ none
    → get_property s p (settle env s p v w).1 ≡ some v
unfolding settle pass_on is_own get_property
get_property-settle env s prop_logger (World.logger_value x) w own e =
    elim (Bool-cases (w.flags s).enabled) [
      | inl on ↦ ground (arith, e, on)
      | inr off ↦ rw (off, same_put s) refl
    ]
get_property-settle env s prop_logger v w own e = ground (arith, e)
get_property-settle env s prop_notify (World.func_value x) w own e = rw (same_put s) refl
get_property-settle env s prop_notify v w own e = ground (arith, e)
get_property-settle env s (prop_other n) v w own e = ground (arith, own)
get_property-settle env s p v w own e =
    get_property-told s p v (change s p v w) w (change-Reads s p v w) e

get_property-set_prop :
    (env : Env) (s : Ref) (p : Property) (v : Value) (w : World)
    → is_own p ≡ true
    → (set_prop env s p v w).0 ≡ none
    → get_property s p (set_prop env s p v w).1 ≡ some v
unfolding set_prop
get_property-set_prop env s p v w own e = elim (Bool-cases (w.links s).managed) [
  | inr out ↦ rw (out, set_prop) (get_property-settle env s p v w own (rw (out, set_prop) at e))
  | inl member ↦ elim (Bool-cases (is_fixed p)) [
    | inl shut ↦ ground (arith, e, member, shut)
    | inr loose ↦
        rw (member, loose, set_prop)
          (get_property-settle env s p v (bump env s w) own (rw (member, loose, set_prop) at e))
  ]
]

-- If SetProperty of a property that the service itself keeps answers nil, then GetProperty
-- answers the value that was set.
pub get_property-set_property :
    (env : Env) (s : Ref) (p : Property) (v : Value) (w : World)
    → is_own p ≡ true
    → (set_property env s p v w).0 ≡ none
    → get_property s p (set_property env s p v w).1 ≡ some v
unfolding set_property
get_property-set_property env s p v w own e = elim (Option-cases (set_prop env s p v w).0) [
  | inl f ↦ rw (f, set_property) (get_property-set_prop env s p v w own f)
  | inr (x, f) ↦ ground (arith, e, f)
]

too_quickly-negative :
    (env : Env) (s : Ref) (n : ℕ) (w : World)
    → (w.rate s).rate_limit ≡ negsuc n
    → (w.rate s).starts ≡ 0
    → (w.rate s).start_times ≡ []
    → (too_quickly env s w).0 ≡ out_of_range
unfolding too_quickly last_start start_back
too_quickly-negative env s n w limit starts times = ground (arith, limit, starts, times)

-- Once a negative rate limit is set on a service, in any state, tooQuickly indexes its table out
-- of range.
pub too_quickly-out_of_range :
    (env : Env) (s : Ref) (n : ℕ) (w : World)
    → (too_quickly env s (set_property env s prop_rate_limit (World.int_value (negsuc n)) w).1).0
      ≡ out_of_range
unfolding set_property set_prop settle change pass_on is_fixed
too_quickly-out_of_range env s n w =
    let x = (set_property env s prop_rate_limit (World.int_value (negsuc n)) w).1 in
    too_quickly-negative env s n x (ground (arith, same_put s)) (ground (arith, same_put s))
      (ground (arith, same_put s))
