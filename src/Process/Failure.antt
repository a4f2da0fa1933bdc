-- ===== src/Process/Failure.antt =====
-- process.go `doWait`, `Check` and `Start`: failures.
use govisor.Common.{
  false, ◌≡◌, refl, ◌↔◌, List, [], ◌∷◌, String, if◌then◌else◌, Option, none, some, arith,
}
use govisor.World.{Error}
use govisor.Process.State.{Process, Os, Manifest, from_manifest, command}
use govisor.Process.{panicked, spawn, launch, start, do_wait, check, unexpected}

-- What an end with the result `e` should be told as: nothing behind a `Stop`, the error if there
-- is one, and else an unexpected end if that counts as a failure.
unfoldable pub verdict : Process → Option Error → Option Error
verdict p (some x) = if p.stopped then none else some x
verdict p none = if p.stopped then none else if p.fail_on_exit then some unexpected else none

-- When a process that has not failed ends, Check then answers nothing if it was stopped, else
-- the error that it ended with, and for an end without one the error of an unexpected
-- termination if that is set to count as a failure, and nothing if not.
pub do_wait-check :
    (p : Process) (e : Option Error) → p.failed ≡ false → check (do_wait e p) ≡ verdict p e
unfolding check do_wait verdict
do_wait-check p e fine = ground arith

launch-panicked :
    (os : Os) (p : Process) (find : String → String) (argv : List String) (dir : String)
    → launch os p (command find argv dir) ≡ panicked
    → argv ≡ []
unfolding launch command spawn
launch-panicked os p find [] dir h = refl
launch-panicked os p find (x ∷ xs) dir h = ground (arith, h)

-- Start of a process that is made from a manifest panics just when the command of the manifest
-- is empty, whatever the operating system answers.
pub start-panicked :
    (os : Os) (find : String → String) (m : Manifest)
    → (start os (from_manifest find m) ≡ panicked) ↔ (m.command ≡ [])
unfolding start from_manifest
start-panicked os find m =
    (launch-panicked os _ find m.command m.directory, λ h. rw (h, launch, command) refl)
