-- ===== src/Process/Lifecycle.antt =====
-- process.go: a process from its start to the end of `Stop`, whose steps the Manager, the timer of
-- `Stop` and the end of the process bring about in any order.
use govisor.Common.{
  ltb, ℕ, ◌<◌, Bool, true, false, ◌≡◌, ◌≢◌, refl, ◌∙◌, sym, ap, ◌↔◌, String, Option, none, some,
  arith, inl, inr, Sum-cases, Option-cases,
}
use govisor.World.{Error, ℤ, pos, negsuc}
use govisor.Process.State.{
  Process, Os, Cmd, no_stderr, no_stdout, too_slow, note, Manifest, from_manifest,
}
use govisor.Process.Same.{Same, Same-trans, capture-Same, shutdown-Same, kill-Same}
use govisor.Process.{
  capture, replied, spawn, launch, start, begin_stop, stop_timer, end_stop, do_wait, check,
}

-- Where the Manager is: the service is down, up, or its `Stop` waits.
pub data Phase : Type 0 where
  down up stopping : Phase

abbrev pub after_start : Option Error → Phase
after_start none = up
after_start (some e) = down

abbrev pub after_stop : Bool → Phase
after_stop true = down
after_stop false = stopping

-- `if p.stopTime > 0`
abbrev pub timed : ℤ → Bool
timed (pos n) = ltb 0 n
timed (negsuc n) = false

pub data Step (os : Os) : Phase → Process → Phase → Process → Type 0 where
  starts :
      {p q : Process} (e : Option Error)
      → start os p ≡ replied e q
      → Step os down p (after_start e) q
  exits : {s : Phase} {p : Process} (e : Option Error) → 0 < p.waiting → Step os s p s (do_wait e p)
  stops : {p : Process} → Step os up p (after_stop (begin_stop os p).1) (begin_stop os p).0
  expires : {p : Process} → timed p.stop_time ≡ true → Step os stopping p stopping (stop_timer os p)
  returns : {p : Process} → p.waiting ≡ 0 → Step os stopping p down (end_stop p)

pub data Reach (os : Os) (p : Process) : Phase → Process → Type 0 where
  here : Reach os p down p
  next : {s t : Phase} {q r : Process} → Reach os p s q → Step os s q t r → Reach os p t r

abbrev running : Option ℕ → ℕ
running none = 0
running (some pid) = 1

-- There is a process exactly while one is waited for, none while the service is down, and a failure
-- has its reason. A `Stop` that waits has said so.
pub record IsLive (s : Phase) (p : Process) : Type 0 where
  pub counted : p.waiting ≡ running p.process
  pub quiet : s ≡ down → p.process ≡ none
  pub reasoned : p.failed ≡ true → p.reason ≢ none
  pub told : s ≡ stopping → p.stopped ≡ true
  pub asked : s ≡ up → p.stopped ≡ false

module _ (os : Os) where
  -- What a start that returns leaves.
  spawn-IsLive :
      (c : Cmd) (p q : Process) (e : Option Error)
      → p.process ≡ none
      → p.waiting ≡ 0
      → p.failed ≡ false
      → p.stopped ≡ false
      → spawn os c p ≡ replied e q
      → IsLive (after_start e) q
  unfolding spawn
  spawn-IsLive c p q e none_yet idle fine free h = elim (Sum-cases (os.spawn_result p.ticks c)) [
    | inl (x, f) ↦
        let r = rw (f, spawn) at h in
        record {
          counted = ground (arith, r);
          quiet = λ d. ground (arith, r);
          reasoned = λ d. ground (arith, r);
          told = λ d. ground (arith, r, d);
          asked = λ d. ground (arith, r);
        }
    | inr (pid, f) ↦
        let r = rw (f, spawn) at h in
        record {
          counted = ground (arith, r);
          quiet = λ d. ground (arith, r, d);
          reasoned = λ d. ground (arith, r, d);
          told = λ d. ground (arith, r, d);
          asked = λ d. ground (arith, r);
        }
  ]

  launch-IsLive :
      (p q : Process) (c : Option Cmd) (e : Option Error)
      → p.process ≡ none
      → p.waiting ≡ 0
      → p.failed ≡ false
      → p.stopped ≡ false
      → launch os p c ≡ replied e q
      → IsLive (after_start e) q
  unfolding launch
  launch-IsLive p q none e none_yet idle fine free h = ground (arith, h)
  launch-IsLive p q (some c) e none_yet idle fine free h =
      let r = capture os c.has_stdout no_stdout p in
      let k =
        Same-trans (capture-Same os c.has_stdout no_stdout p)
          (capture-Same os c.has_stderr no_stderr r) in
      spawn-IsLive c (capture os c.has_stderr no_stderr r) q e (k.process ∙ none_yet)
        (k.waiting ∙ idle) (k.failed ∙ fine) (k.stopped ∙ free) h

  -- A process that the system has been asked about.
  Same-IsLive : {s : Phase} {p q : Process} → Same p q → IsLive s p → IsLive s q
  Same-IsLive k l = record {
    counted = k.waiting ∙ l.counted ∙ ap running (sym k.process);
    quiet = λ d. k.process ∙ l.quiet d;
    reasoned = λ d. ground (arith, l.reasoned, k.reason, k.failed, d);
    told = λ d. k.stopped ∙ l.told d;
    asked = λ d. k.stopped ∙ l.asked d;
  }

  stops-IsLive :
      (p : Process) → IsLive up p → IsLive (after_stop (begin_stop os p).1) (begin_stop os p).0
  unfolding begin_stop
  stops-IsLive p l = elim (Option-cases p.process) [
    | inl gone ↦
        rw (gone, begin_stop)
          (record {
            counted = l.counted;
            quiet = λ d. gone;
            reasoned = l.reasoned;
            told = λ d. refl;
            asked = λ d. ground (arith, d);
          })
    | inr (pid, on) ↦
        rw (on, begin_stop)
          (Same-IsLive (shutdown-Same os (record p { stopped = true })) (record {
            counted = l.counted;
            quiet = λ d. ground (arith, d);
            reasoned = l.reasoned;
            told = λ d. refl;
            asked = λ d. ground (arith, d);
          }))
  ]

  exits-IsLive :
      (s : Phase) (p : Process) (e : Option Error)
      → 0 < p.waiting
      → IsLive s p
      → IsLive s (do_wait e p)
  unfolding do_wait
  exits-IsLive s p e busy l = record {
    counted = ground (arith, l.counted);
    quiet = λ d. ground arith;
    reasoned = λ d. ground (arith, l.reasoned, d);
    told = λ d. ground (arith, l.told d);
    asked = λ d. ground (arith, l.asked d);
  }

  Step-IsLive :
      {s : Phase} {p : Process} {t : Phase} {q : Process}
      → Step os s p t q
      → IsLive s p
      → IsLive t q
  unfolding stop_timer end_stop start
  Step-IsLive (starts {p} {q} e h) l =
      launch-IsLive _ q p.start_cmd e (l.quiet refl) (l.counted ∙ ap running (l.quiet refl)) refl
        refl h
  Step-IsLive (exits {s} {p} e h) l = exits-IsLive s p e h l
  Step-IsLive (stops {p}) l = stops-IsLive p l
  Step-IsLive (expires {p} g) l = Same-IsLive (kill-Same os (note too_slow p)) (record {
    counted = l.counted;
    quiet = l.quiet;
    reasoned = l.reasoned;
    told = l.told;
    asked = l.asked;
  })
  Step-IsLive (returns {p} h) l = record {
    counted = h;
    quiet = λ d. refl;
    reasoned = l.reasoned;
    told = λ d. ground (arith, d);
    asked = λ d. ground (arith, d);
  }

  Reach-IsLive :
      {p : Process} {s : Phase} {q : Process} → IsLive down p → Reach os p s q → IsLive s q
  Reach-IsLive l here = l
  Reach-IsLive l (next r st) = Step-IsLive st (Reach-IsLive l r)

-- For any answers of the operating system, a process made from a manifest, through any order of
-- starts that return, ends of the process, stops, expiries of the timer of Stop and returns of
-- Stop: a process is recorded exactly while one is waited for, none is while the service is
-- down, a failure has its reason, a Stop that waits has marked the process as stopped, and Check
-- answers nil just when the process has not failed.
pub from_manifest-Reach :
    (os : Os) (find : String → String) (m : Manifest) {s : Phase} {q : Process}
    → Reach os (from_manifest find m) s q
    → IsLive s q × ((check q ≡ none) ↔ (q.failed ≡ false))
unfolding from_manifest check
from_manifest-Reach os find m r =
    let l =
      Reach-IsLive os
        (record {
          counted = refl;
          quiet = λ d. refl;
          reasoned = λ d. ground (arith, d);
          told = λ d. ground (arith, d);
          asked = λ d. refl;
        })
        r in
    (l, (λ h. ground (arith, h, l.reasoned), λ h. ground (arith, h)))
