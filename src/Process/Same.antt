-- ===== src/Process/Same.antt =====
-- process.go: what a call of the operating system leaves alone.
use govisor.Common.{ℕ, Bool, true, false, ◌≡◌, ◌∙◌, Option, none, some, arith}
use govisor.World.{Error, ℤ}
use govisor.Process.State.{Process, Os, Cmd, Note, no_stderr, no_stdout}
use govisor.Process.{
  capture, with_pid, run_cmd, ask_to_stop, shutdown, kill, late, limit, stop_failed,
}

-- The operating system is asked, and nothing but the notes changes.
pub record Same (p q : Process) : Type 0 where
  pub process : q.process ≡ p.process
  pub waiting : q.waiting ≡ p.waiting
  pub failed : q.failed ≡ p.failed
  pub reason : q.reason ≡ p.reason
  pub stopped : q.stopped ≡ p.stopped

pub Same-trans : {p q r : Process} → Same p q → Same q r → Same p r
Same-trans a b = record {
  process = b.process ∙ a.process;
  waiting = b.waiting ∙ a.waiting;
  failed = b.failed ∙ a.failed;
  reason = b.reason ∙ a.reason;
  stopped = b.stopped ∙ a.stopped;
}

module _ (os : Os) where
  pub capture-Same :
      (has : Bool) (what : Error → Note) (p : Process) → Same p (capture os has what p)
  unfolding capture
  capture-Same true what p = ground arith
  capture-Same false what p = ground arith

  late-Same : (b : Bool) (p : Process) → Same p (late os b p)
  late-Same true p = ground arith
  late-Same false p = ground arith

  run_cmd-Same : (c : Cmd) (d : ℤ) (p : Process) → Same p (run_cmd os c d p).1
  unfolding run_cmd capture
  run_cmd-Same c d p =
      let q = capture os false no_stderr p in
      let r = capture os false no_stdout q in
      let l = late-Same (os.run_result r.ticks (with_pid os p.process c) (limit os d)).0 r in
      let b =
        Same-trans (capture-Same false no_stderr p)
          (Same-trans (capture-Same false no_stdout q) l) in
      record {
        process = b.process;
        waiting = b.waiting;
        failed = b.failed;
        reason = b.reason;
        stopped = b.stopped;
      }

  stop_failed-Same :
      (p : Process) (r : Option Error × Process) → Same p r.1 → Same p (stop_failed os r)
  stop_failed-Same p (none, q) h = h
  stop_failed-Same p (some e, q) h = record {
    process = h.process;
    waiting = h.waiting;
    failed = h.failed;
    reason = h.reason;
    stopped = h.stopped;
  }

  ask_to_stop-Same : (pid : ℕ) (c : Option Cmd) (p : Process) → Same p (ask_to_stop os pid c p)
  unfolding ask_to_stop
  ask_to_stop-Same pid none p = ground arith
  ask_to_stop-Same pid (some c) p = stop_failed-Same p _ (run_cmd-Same c p.stop_time p)

  pub shutdown-Same : (p : Process) → Same p (shutdown os p)
  unfolding shutdown
  shutdown-Same p = ground (arith, λ (pid : ℕ). ask_to_stop-Same pid p.stop_cmd p)

  pub kill-Same : (p : Process) → Same p (kill os p)
  unfolding kill
  kill-Same p = ground arith
