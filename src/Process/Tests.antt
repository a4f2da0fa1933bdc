-- ===== src/Process/Tests.antt =====
-- A process that is started, ends by itself and is stopped.
use govisor.Common.{String, true, false, ◌≡◌, ◌↔◌, refl, none, some, List, [], ◌∷◌, inr, arith}
use govisor.World.{pos, prop_other, bool_value}
use govisor.Process.State.{Process, process_id, Os, Manifest, from_manifest}
use govisor.Process.{start, panicked, replied, begin_stop, do_wait, check}
use govisor.Process.Lifecycle.{
  down, Reach, here, next, starts, exits, stops, IsLive, from_manifest-Reach,
}
use govisor.Process.Failure.{do_wait-check, start-panicked, verdict}
use govisor.Process.Settings.{plain, set, set_property, property, property-set_property}

abbrev os : Os
os = record {
  pipe_result = λ t. none;
  spawn_result = λ t c. inr 42;
  run_result = λ t c d. (false, none);
  signal_result = λ t p. none;
  kill_result = λ t p. none;
  environ = [];
  print_pid = λ p. "42";
}

abbrev manifest : List String → Manifest
manifest argv = record {
  name = "nap";
  description = "";
  command = argv;
  env = [];
  stop_cmd = [];
  stop_time = pos 0;
  fail_on_exit = true;
  check_cmd = [];
  restart = false;
  provides = [];
  depends = [];
  conflicts = [];
  directory = "";
}

abbrev find : String → String
find s = s

abbrev new : Process
new = from_manifest find (manifest ("sleep" ∷ "9" ∷ []))

abbrev began : Process
began = record new { process = some 42; waiting = 1; ticks = 3; notes = process_id 42 ∷ [] }

began_lem : start os new ≡ replied none began
unfolding start from_manifest
began_lem = refl

-- It ends, which is a failure, and is stopped behind that.
history : Reach os new down (begin_stop os (do_wait none began)).0
unfolding begin_stop do_wait from_manifest
history = next (next (next here (starts none began_lem)) (exits none (omega arith))) stops

from_manifest-Reach_example :
    IsLive down (begin_stop os (do_wait none began)).0
    × ((check (begin_stop os (do_wait none began)).0 ≡ none)
        ↔ ((begin_stop os (do_wait none began)).0.failed ≡ false))
from_manifest-Reach_example = from_manifest-Reach os find (manifest ("sleep" ∷ "9" ∷ [])) history

began_fine : began.failed ≡ false
unfolding from_manifest
began_fine = refl

do_wait-check_example : check (do_wait none began) ≡ verdict began none
do_wait-check_example = do_wait-check began none began_fine

start-panicked_example :
    (start os (from_manifest find (manifest [])) ≡ panicked) ↔ ((manifest []).command ≡ [])
start-panicked_example = start-panicked os find (manifest [])

fail_on_exit_set :
    set_property (prop_other "_ProcFailOnExit") (plain (bool_value false)) began
    ≡ set (record began { fail_on_exit = false })
unfolding set_property
fail_on_exit_set = refl

property-set_property_example :
    property (prop_other "_ProcFailOnExit") (record began { fail_on_exit = false })
    ≡ some (plain (bool_value false))
property-set_property_example =
    property-set_property (prop_other "_ProcFailOnExit") (plain (bool_value false)) began
      (record began { fail_on_exit = false }) fail_on_exit_set
