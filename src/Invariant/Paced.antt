-- ===== src/Invariant/Paced.antt =====
-- service.go `tooQuickly` and the table of start times.
use native.Mathlib.Nat.{mod-lt}
use govisor.Common.{
  false, leb, ℕ, ◌-◌, ◌%◌, ◌≤◌, ◌<◌, ◌≡◌, ◌≢◌, refl, some, arith, length, get_elem?-some,
  length-set, inl, inr, Bool-cases, ◌==◌, ◌∙◌, ap, sym, subst,
}
use govisor.Common.Refs.{Ref}
use govisor.Invariant.Neighbours.{View, view}
use govisor.World.{World, Env, Rate, pos}
use govisor.Service.Limit.{
  read_clock, count_start, stamp_start, out_of_range, start_back, cool_down, last_start,
  too_quickly, record_start,
}

-- The table has a slot for each start of a period; a limit is not negative.
abbrev pub RateOk : Rate → Type 0
RateOk x = x.rate_limit ≡ pos (length x.start_times)

-- Nothing but the limiter has changed, and it is in order.
pub record Paced (w v : World) : Type 0 where
  pub links : v.links ≡ w.links
  pub props : v.props ≡ w.props
  pub services : v.services ≡ w.services
  pub flags : v.flags ≡ w.flags
  pub rates : (r : Ref) → RateOk (v.rate r)

-- Nothing but the limiter of one service, the readings of the clock and the log has changed.
pub record Only (s : Ref) (w v : World) : Type 0 where
  pub links : v.links ≡ w.links
  pub props : v.props ≡ w.props
  pub services : v.services ≡ w.services
  pub flags : v.flags ≡ w.flags
  pub info : v.info ≡ w.info
  pub mgr_name : v.mgr_name ≡ w.mgr_name
  pub mgr_serial : v.mgr_serial ≡ w.mgr_serial
  pub list_serial : v.list_serial ≡ w.list_serial
  pub list_stamp : v.list_stamp ≡ w.list_stamp
  pub create_time : v.create_time ≡ w.create_time
  pub update_time : v.update_time ≡ w.update_time
  pub monitoring : v.monitoring ≡ w.monitoring
  pub cleanup : v.cleanup ≡ w.cleanup
  pub others : (r : Ref) → (s == r) ≡ false → v.rate r ≡ w.rate r

start_back-some :
    (x : Rate) (back : ℕ)
    → RateOk x
    → 0 < length x.start_times
    → length x.start_times ≤ x.starts
    → back ≤ 2
    → (t : ℕ) × (start_back x back ≡ some t)
unfolding start_back
start_back-some x back ok pos_len le two = elim (Bool-cases (leb back x.starts)) [
  | inl enough ↦
      let (t, e) =
        get_elem?-some x.start_times ((x.starts - back) % length x.start_times)
          (mod-lt _ pos_len) in
      (t, ground (arith, e))
  | inr short ↦ let (t, e) = get_elem?-some x.start_times 0 pos_len in (t, ground (arith, e))
]

module _ (env : Env) where
  cool_down-Paced :
      (s : Ref) (w : World)
      → ((r : Ref) → RateOk (w.rate r))
      → 0 < length (w.rate s).start_times
      → length (w.rate s).start_times ≤ (w.rate s).starts
      → ((cool_down env s w).0 ≢ out_of_range) × Paced w (cool_down env s w).1
  unfolding cool_down
  cool_down-Paced s w ok p le =
      let (t, e) = start_back-some (w.rate s) 2 (ok s) p le (omega arith) in
      (
        ground (arith, e),
        record {
          links = ground (arith, e);
          props = ground (arith, e);
          services = ground (arith, e);
          flags = ground (arith, e);
          rates = λ r. ground (arith, e, ok r, ok s);
        },
      )

  last_start-Paced :
      (s : Ref) (w : World)
      → ((r : Ref) → RateOk (w.rate r))
      → 0 < length (w.rate s).start_times
      → length (w.rate s).start_times ≤ (w.rate s).starts
      → ((last_start env s w).0 ≢ out_of_range) × Paced w (last_start env s w).1
  unfolding last_start
  last_start-Paced s w ok p le =
      let (t, e) = start_back-some (w.rate s) 1 (ok s) p le (omega arith) in
      let c = cool_down-Paced s (read_clock env w) ok p le in
      (
        ground (arith, e, c),
        record {
          links = ground (arith, e, c);
          props = ground (arith, e, c);
          services = ground (arith, e, c);
          flags = ground (arith, e, c);
          rates = λ r. ground (arith, e, ok r, ok s, c.1.rates r);
        },
      )

  too_quickly-Only : (s : Ref) (w : World) → Only s w (too_quickly env s w).1
  unfolding too_quickly last_start cool_down
  too_quickly-Only s w = record {
    links = ground arith;
    props = ground arith;
    services = ground arith;
    flags = ground arith;
    info = ground arith;
    mgr_name = ground arith;
    mgr_serial = ground arith;
    list_serial = ground arith;
    list_stamp = ground arith;
    create_time = ground arith;
    update_time = ground arith;
    monitoring = ground arith;
    cleanup = ground arith;
    others = λ r h. ground (arith, h);
  }

  pub paced :
      (s : Ref) (w : World)
      → ((r : Ref) → RateOk (w.rate r))
      → ((too_quickly env s w).0 ≢ out_of_range) × Paced w (too_quickly env s w).1
  unfolding too_quickly
  paced s w ok =
      let c = last_start-Paced s w ok in
      (
        ground (arith, ok s, c),
        record {
          links = ground (arith, ok s, c);
          props = ground (arith, ok s, c);
          services = ground (arith, ok s, c);
          flags = ground (arith, ok s, c);
          rates = λ r. ground (arith, ok r, ok s, c);
        },
      )

  -- If each limiter has as many slots as its limit, then tooQuickly does not index out of range,
  -- each limiter still has as many slots as its limit, and nothing has changed but the limiter
  -- of the service, the count of the readings of the clock and the log: not the limiter of
  -- another service, nor what is shown of a service, the graph, the services, or a number, a
  -- time or a switch of the Manager.
  pub too_quickly-Paced :
      (s : Ref) (w : World)
      → ((r : Ref) → RateOk (w.rate r))
      → ((too_quickly env s w).0 ≢ out_of_range)
        × ((r : Ref) → RateOk ((too_quickly env s w).1.rate r))
        × Only s w (too_quickly env s w).1
  too_quickly-Paced s w ok = let (fine, p) = paced s w ok in (fine, p.rates, too_quickly-Only s w)

  -- Nor does the record of a start.
  pub record_start-Paced :
      (s : Ref) (w : World)
      → ((r : Ref) → RateOk (w.rate r))
      → (v : World) × (record_start env s w ≡ some v) × Paced w v
  unfolding record_start
  record_start-Paced s w ok =
      let k = length (w.rate s).start_times in
      elim (Bool-cases (k == 0)) [
        | inl none_kept ↦ (
          count_start env s w,
          ground (arith, ok s),
          record {
            links = refl;
            props = refl;
            services = refl;
            flags = refl;
            rates = λ r. ground (arith, ok r, ok s);
          },
        )
        | inr kept ↦
            let (t, e) =
              get_elem?-some (w.rate s).start_times ((w.rate s).starts % k)
                (mod-lt _ (ground arith)) in
            (
              count_start env s (stamp_start env s k w),
              ground (arith, ok s, e),
              record {
                links = refl;
                props = refl;
                services = refl;
                flags = refl;
                rates = λ r. ground (
                  arith,
                  ok r,
                  ok s,
                  length-set (w.rate s).start_times ((w.rate s).starts % k) (env.now w.tick),
                );
              },
            )
      ]

pub Paced-trans : {u v w : World} → Paced u v → Paced v w → Paced u w
Paced-trans a b = record {
  links = b.links ∙ a.links;
  props = b.props ∙ a.props;
  services = b.services ∙ a.services;
  flags = b.flags ∙ a.flags;
  rates = b.rates;
}

pub Paced-of_view : (w v : World) → view v ≡ view w → ((r : Ref) → RateOk (w.rate r)) → Paced w v
Paced-of_view w v e ok = record {
  links = ap (λ u. u.links) e;
  props = ap (λ u. u.props) e;
  services = ap (λ u. u.services) e;
  flags = ap (λ u. u.flags) e;
  rates = subst (λ (u : View). (r : Ref) → RateOk (u.rate r)) (sym e) ok;
}
