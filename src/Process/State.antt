-- ===== src/Process/State.antt =====
-- process.go `Process` and `ProcessManifest`, and what the operating system decides.
use govisor.Common.{ℕ, suc, String, Bool, false, Option, none, some, List, [], ◌∷◌, ◌⊎◌, str_append}
use govisor.World.{Error, ℤ, pos}

-- An `exec.Cmd`, as far as the code reads it.
pub record Cmd : Type 0 where
  pub argv : List String
  pub path : String
  pub dir : String
  pub env : Option (List String)
  pub has_stdout : Bool
  pub has_stderr : Bool

-- The lines that are printed.
pub data Note : Type 0 where
  process_id : ℕ → Note
  wait_failed no_stdout no_stderr no_signal no_stop_cmd no_kill : Error → Note
  too_slow too_slow_cmd : Note

-- `waiting` is the count of the wait group, and `ticks` counts the calls of the operating system.
pub record Process : Type 0 where
  pub name : String
  pub desc : String
  pub provides : List String
  pub depends : List String
  pub conflicts : List String
  pub logger : Option ℕ
  pub reason : Option Error
  pub failed : Bool
  pub stopped : Bool
  pub stop_time : ℤ
  pub fail_on_exit : Bool
  pub stop_cmd : Option Cmd
  pub check_cmd : Option Cmd
  pub start_cmd : Option Cmd
  pub process : Option ℕ
  pub directory : String
  pub waiting : ℕ
  pub ticks : ℕ
  pub notes : List Note

-- The answers of the operating system, by the number of calls so far. A command that is run with a
-- time limit answers whether the limit was met, and with which error it ended.
pub record Os : Type 0 where
  pub pipe_result : ℕ → Option Error
  pub spawn_result : ℕ → Cmd → Error ⊎ ℕ
  pub run_result : ℕ → Cmd → ℤ → Bool × Option Error
  pub signal_result : ℕ → ℕ → Option Error
  pub kill_result : ℕ → ℕ → Option Error
  pub environ : List String
  pub print_pid : ℕ → String

abbrev pub note : Note → Process → Process
note n p = record p { notes = n ∷ p.notes }

abbrev pub tick : Process → Process
tick p = record p { ticks = suc p.ticks }

pub record Manifest : Type 0 where
  pub name : String
  pub description : String
  pub command : List String
  pub env : List String
  pub stop_cmd : List String
  pub stop_time : ℤ
  pub fail_on_exit : Bool
  pub check_cmd : List String
  pub restart : Bool
  pub provides : List String
  pub depends : List String
  pub conflicts : List String
  pub directory : String

-- `&Process{}`
abbrev blank : Process
blank = record {
  name = "";
  desc = "";
  provides = [];
  depends = [];
  conflicts = [];
  logger = none;
  reason = none;
  failed = false;
  stopped = false;
  stop_time = pos 0;
  fail_on_exit = false;
  stop_cmd = none;
  check_cmd = none;
  start_cmd = none;
  process = none;
  directory = "";
  waiting = 0;
  ticks = 0;
  notes = [];
}

-- `exec.Command(argv[0], argv[1:]...)` with the directory set, if there is an `argv[0]`. The path
-- is what the library finds for the name.
unfoldable pub command : (String → String) → List String → String → Option Cmd
command find [] dir = none
command find (name ∷ args) dir = some (record {
  argv = name ∷ args;
  path = find name;
  dir = dir;
  env = none;
  has_stdout = false;
  has_stderr = false;
})

-- `NewProcessFromManifest` up to `NewService`.
unfoldable pub from_manifest : (String → String) → Manifest → Process
unfolding command
from_manifest find m = record blank {
  name = m.name;
  desc = m.description;
  directory = m.directory;
  start_cmd = command find m.command m.directory;
  stop_cmd = command find m.stop_cmd m.directory;
  check_cmd = command find m.check_cmd m.directory;
  stop_time = m.stop_time;
  depends = m.depends;
  conflicts = m.conflicts;
  provides = m.provides;
  fail_on_exit = m.fail_on_exit;
}

-- `NewProcess` up to `NewService`, with the logger that it makes.
unfoldable pub from_cmd : ℕ → String → Cmd → Process
from_cmd logger name cmd = record blank {
  logger = some logger;
  stop_time = pos 10000000000;
  start_cmd = some cmd;
  name = name;
  desc = str_append (str_append name " process: ") cmd.path;
  directory = cmd.dir;
}
