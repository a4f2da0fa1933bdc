-- ===== src/Invariant/Attempt.antt =====
-- service.go `startRecurse` up to the call of the provider, and what a start does to the flags.
use govisor.Common.{
  true, false, ◌≡◌, ◌≢◌, refl, sym, ◌∙◌, ◌⊎◌, inl, inr, arith, Bool-cases, ◌==◌, ==_iff,
}
use govisor.Common.Refs.{Ref}
use govisor.World.{World, Env, Flags, Links, put}
use govisor.Service.Runnable.{is_up, runnable, can_run}
use govisor.Service.Limit.{Pace, free, limited, out_of_range, too_quickly}
use govisor.Service.Run.{Attempt, skip, go, attempt, after_pace}
use govisor.Invariant.Neighbours.{runnable_mono, view-can_run, can_run-runnable}
use govisor.Invariant.Paced.{RateOk, Paced, Paced-trans, Paced-of_view, paced, record_start-Paced}

-- What a start does to the flags: services come up, and none goes down.
pub record StartFrame (f g : Ref → Flags) : Type 0 where
  pub enabled : (r : Ref) → (g r).enabled ≡ (f r).enabled
  pub stopping : (r : Ref) → (g r).stopping ≡ (f r).stopping
  pub running : (r : Ref) → (f r).running ≡ true → (g r).running ≡ true
  pub up : (r : Ref) → is_up (f r) ≡ true → is_up (g r) ≡ true
  pub fresh : (r : Ref) → (g r).running ≡ true → ((f r).running ≡ true) ⊎ ((g r).failed ≡ false)
  pub failed : (r : Ref) → (f r).running ≡ true → (g r).failed ≡ (f r).failed

pub StartFrame-refl : (f : Ref → Flags) → StartFrame f f
StartFrame-refl f = record {
  enabled = λ r. refl;
  stopping = λ r. refl;
  running = λ r h. h;
  up = λ r h. h;
  fresh = λ r h. inl h;
  failed = λ r h. refl;
}

pub StartFrame-trans : {f g h : Ref → Flags} → StartFrame f g → StartFrame g h → StartFrame f h
StartFrame-trans a b = record {
  enabled = λ r. b.enabled r ∙ a.enabled r;
  stopping = λ r. b.stopping r ∙ a.stopping r;
  running = λ r h. b.running r (a.running r h);
  up = λ r h. b.up r (a.up r h);
  fresh = λ r h. ground (arith, b.fresh r h, a.fresh r, b.failed r);
  failed = λ r h. b.failed r (a.running r h) ∙ a.failed r h;
}

-- Every running service may run.
abbrev pub Sound : (Ref → Links) → (Ref → Flags) → Type 0
Sound links f = (r : Ref) → (f r).running ≡ true → runnable f (links r) (f r) ≡ true

pub Sound-mono :
    (links : Ref → Links) (f g : Ref → Flags) (s : Ref)
    → StartFrame f g
    → runnable f (links s) (f s) ≡ true
    → ((r : Ref) → (g r).running ≡ true → (r ≡ s) ⊎ ((f r).running ≡ true))
    → Sound links f
    → Sound links g
Sound-mono links f g s e ok only sound r on =
    runnable_mono f g (links r) r e.up e.enabled (e.stopping r)
      (elim (only r on) [ inl same ↦ rw same ok | inr old ↦ sound r old ])

-- The outcome of an attempt: nothing but the limiter has changed, and a service that is started
-- does not run and may.
pub data Attempted (w : World) (s : Ref) : Attempt → Type 0 where
  skipped : {v : World} → Paced w v → Attempted w s (skip v)
  ready :
      {v : World}
      → Paced w v
      → (w.flags s).running ≡ false
      → runnable w.flags (w.links s) (w.flags s) ≡ true
      → Attempted w s (go v)

paced-Attempted :
    (env : Env) (s : Ref) (w v : World) (pace : Pace)
    → pace ≢ out_of_range
    → Paced w v
    → (w.flags s).running ≡ false
    → runnable w.flags (w.links s) (w.flags s) ≡ true
    → Attempted w s (after_pace env s pace v)
unfolding after_pace
paced-Attempted env s w v out_of_range bound p off may = absurd (bound refl)
paced-Attempted env s w v limited bound p off may = skipped p
paced-Attempted env s w v free bound p off may =
    let (x, e, q) = record_start-Paced env s v p.rates in
    rw (e, after_pace)
      (ready (Paced-trans p (Paced-trans q (Paced-of_view x _ refl q.rates))) off may)

pub attempt-Attempted :
    (env : Env) (s : Ref) (w : World)
    → ((r : Ref) → RateOk (w.rate r))
    → Attempted w s (attempt env s w)
unfolding attempt
attempt-Attempted env s w ok = elim (Bool-cases (w.flags s).running) [
  | inl on ↦ rw on (skipped (Paced-of_view w w refl ok))
  | inr off ↦
      let q = Paced-of_view w (can_run env s w).1 (view-can_run env s w) ok in
      elim (Bool-cases (can_run env s w).0) [
        | inr bad ↦ rw (off, bad) (skipped q)
        | inl may ↦
            let t = paced env s (can_run env s w).1 q.rates in
            rw (off, may)
              (paced-Attempted env s w _ (too_quickly env s (can_run env s w).1).0 t.0
                (Paced-trans q t.1) off (sym (can_run-runnable env s w) ∙ may))
      ]
]

abbrev pub launched : Ref → (Ref → Flags) → Ref → Flags
launched s f = put f s (record (f s) { running = true; failed = false })

abbrev pub broken : Ref → (Ref → Flags) → Ref → Flags
broken s f = put f s (record (f s) { failed = true })

pub StartFrame-launched :
    (s : Ref) (f : Ref → Flags) → (f s).running ≡ false → StartFrame f (launched s f)
StartFrame-launched s f off = record {
  enabled = λ r. ground arith;
  stopping = λ r. ground arith;
  running = λ r h. ground arith;
  up = λ r h. ground arith;
  fresh = λ r h. ground arith;
  failed = λ r h. ground arith;
}

-- Only the launched service runs anew.
pub launched_only :
    (s : Ref) (f : Ref → Flags) (r : Ref)
    → (launched s f r).running ≡ true
    → (r ≡ s) ⊎ ((f r).running ≡ true)
launched_only s f r on = elim (Bool-cases (s == r)) [
  | inl same ↦ inl (sym ((==_iff s r).0 same))
  | inr other ↦ inr (ground arith)
]

pub StartFrame-broken :
    (s : Ref) (f : Ref → Flags) → (f s).running ≡ false → StartFrame f (broken s f)
StartFrame-broken s f off = record {
  enabled = λ r. ground arith;
  stopping = λ r. ground arith;
  running = λ r h. ground arith;
  up = λ r h. ground arith;
  fresh = λ r h. ground arith;
  failed = λ r h. ground arith;
}
