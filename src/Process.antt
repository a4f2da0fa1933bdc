-- ===== src/Process.antt =====
-- process.go: a provider that runs an operating system process.
pub mod State
pub mod Settings
pub mod Same
pub mod Lifecycle
pub mod Failure
mod Tests
use govisor.Common.{
  ℕ, zero, suc, ◌+◌, ◌-◌, ◌==◌, String, Bool, true, false, not, Option, none, some, List, [], ◌∷◌,
  ◌++◌, if◌then◌else◌, str_append, ◌⊎◌, inl, inr,
}
use govisor.World.{Error, other, ℤ, pos, negsuc}
use govisor.Process.State.{
  Cmd, Note, process_id, wait_failed, no_stdout, no_stderr, no_signal, no_stop_cmd, no_kill,
  too_slow, too_slow_cmd, Process, Os, note, tick,
}

-- What a call of `Start` comes to.
pub data Started : Type 0 where
  panicked : Started
  replied : Option Error → Process → Started

-- `doLog` runs beside the process and only prints, so a pipe that opens changes nothing here.
module _ (os : Os) where
  -- `if cmd.Stdout == nil { … }`, and likewise for `Stderr`.
  unfoldable pub capture : Bool → (Error → Note) → Process → Process
  capture true what p = p
  capture false what p = elim (os.pipe_result p.ticks) [
    | some e ↦ tick (note (what e) p)
    | none ↦ tick p
  ]

  -- `Start` once the pipes are set up.
  unfoldable pub spawn : Cmd → Process → Started
  spawn c p = elim (os.spawn_result p.ticks c) [
    | inl e ↦ replied (some e) (tick (record p { failed = true; reason = some e }))
    | inr pid ↦
        replied none
          (tick (note (process_id pid) (record p { process = some pid; waiting = p.waiting + 1 })))
  ]

  -- `Start` once the failure is cleared, with the command: a nil command is read through.
  unfoldable pub launch : Process → Option Cmd → Started
  unfolding capture spawn
  launch p none = panicked
  launch p (some c) = spawn c (capture c.has_stderr no_stderr (capture c.has_stdout no_stdout p))

  unfoldable pub start : Process → Started
  unfolding launch
  start p = launch (record p { stopped = false; failed = false; reason = none }) p.start_cmd

  -- The command and the time that `runCmdWithTimeout` runs it with.
  unfoldable pub with_pid : Option ℕ → Cmd → Cmd
  with_pid none c = c
  with_pid (some pid) c = record c {
    env = some (
        (elim c.env [ none ↦ os.environ | some e ↦ e ])
        ++ str_append "PID=" (os.print_pid pid) ∷ []);
  }

  abbrev ten_seconds : ℤ
  ten_seconds = pos 10000000000

  abbrev pub limit : ℤ → ℤ
  limit (pos n) = if n == 0 then ten_seconds else pos n
  limit (negsuc n) = negsuc n

  abbrev pub late : Bool → Process → Process
  late true p = note too_slow_cmd p
  late false p = p

  -- What is printed of a run of `runCmdWithTimeout`, and the error that it answers.
  abbrev ended : Bool × Option Error → Process → Option Error × Process
  ended (slow, e) p = (e, tick (late slow p))

  -- `runCmdWithTimeout`.
  unfoldable pub run_cmd : Cmd → ℤ → Process → Option Error × Process
  unfolding with_pid capture
  run_cmd c d p =
      let q = capture false no_stdout (capture false no_stderr p) in
      ended (os.run_result q.ticks (with_pid p.process c) (limit d)) q

  abbrev pub stop_failed : Option Error × Process → Process
  stop_failed (none, p) = p
  stop_failed (some e, p) = note (no_stop_cmd e) p

  -- `shutdown`, of the process `pid`: by a signal, or by the command that is set.
  unfoldable pub ask_to_stop : ℕ → Option Cmd → Process → Process
  unfolding run_cmd
  ask_to_stop pid none p = elim (os.signal_result p.ticks pid) [
    | some e ↦ tick (note (no_signal e) p)
    | none ↦ tick p
  ]
  ask_to_stop pid (some c) p = stop_failed (run_cmd c p.stop_time p)

  -- A process that was started has a pid of its own, never -1.
  unfoldable pub shutdown : Process → Process
  unfolding ask_to_stop
  shutdown p = elim p.process [ none ↦ p | some pid ↦ ask_to_stop pid p.stop_cmd p ]

  -- `kill`.
  unfoldable pub kill : Process → Process
  kill p = elim p.process [
    | none ↦ p
    | some pid ↦ elim (os.kill_result p.ticks pid) [
      | some e ↦ tick (note (no_kill e) p)
      | none ↦ tick p
    ]
  ]

  -- `Stop` until it waits, or to its end if there is no process: it then gives true.
  unfoldable pub begin_stop : Process → Process × Bool
  unfolding shutdown
  begin_stop p =
      let q = record p { stopped = true } in
      elim p.process [ none ↦ (q, true) | some pid ↦ (shutdown q, false) ]

  -- The timer of `Stop`, should it go off while `Stop` waits.
  unfoldable pub stop_timer : Process → Process
  unfolding kill
  stop_timer p = kill (note too_slow p)

-- `Stop` once the waiter is done.
unfoldable pub end_stop : Process → Process
end_stop p = record p { process = none }

abbrev pub unexpected : Error
unexpected = other "Unexpected termination"

abbrev fail : Error → Process → Process
fail e p = note (wait_failed e) (record p { failed = true; reason = some e })

-- `doWait`, once the process has ended with the result `e`; `waiter.Done()`, which it calls just
-- behind the unlock, is part of the step.
unfoldable pub do_wait : Option Error → Process → Process
do_wait e p =
    let q = record p { process = none; waiting = p.waiting - 1 } in
    if p.stopped
    then q
    else elim e [ some x ↦ fail x q | none ↦ if p.fail_on_exit then fail unexpected q else q ]

-- `Check`.
unfoldable pub check : Process → Option Error
check p = if p.failed then p.reason else none
