-- ===== src/Machine.antt =====
-- Histories of a Manager: every call that a client, the monitor or a provider's callback can make,
-- in any order. The Manager's lock makes each of them one step.
pub mod Safety
pub mod Serials
pub mod Replies
pub mod Properties
pub mod Tests
mod Settings
use govisor.Common.{
  ℕ, String, Bool, true, false, Option, none, List, [], ◌∷◌, if◌then◌else◌, str_eq, ◌==◌, replicate,
}
use govisor.Common.Refs.{Ref}
use govisor.World.{
  Value, Property, World, Env, Props, Links, Flags, Rate, Info, ℤ, pos, Outcome, done, ◌>>=◌,
}
use govisor.Service.Graph.{no_links}
use govisor.Service.Api
use govisor.Service.Property.{make_panics, try_set_property, is_sane}
use govisor.Manager

pub data Call : Type 0 where
  add_service delete_service enable disable restart clear check notify : Ref → Call
  set_property : Ref → Property → Value → Call
  monitor shutdown start_monitoring stop_monitoring : Call

-- `doNotify`, once it has the lock.
unfoldable pub do_notify : Env → Ref → World → Outcome
do_notify env s w = if (w.links s).managed then Manager.notify env s w else done w

unfoldable pub step : Env → Call → World → Outcome
unfolding do_notify try_set_property
step env (add_service s) w = (Manager.add_service env s w).1
step env (delete_service s) w = (Manager.delete_service env s w).1
step env (enable s) w = (Api.enable env s w).1
step env (disable s) w = (Api.disable env s w).1
step env (restart s) w = (Api.restart env s w).1
step env (clear s) w = Api.clear env s w
step env (check s) w = (Api.check env s w).1
step env (notify s) w = do_notify env s w
step env (set_property s p v) w = try_set_property env s p v w
step env monitor w = Manager.monitor_pass env w
step env shutdown w = Manager.shutdown env w
step env start_monitoring w = done (Manager.start_monitoring env w)
step env stop_monitoring w = done (Manager.stop_monitoring env w)

-- Whether a call does not set a rate limit that is negative or longer than a slice may be, nor a nil
-- logger.
unfoldable pub sane : Env → Call → Bool
unfolding make_panics
sane env (set_property s p v) = if make_panics env p v then false else is_sane p v
sane env c = true

unfoldable pub all_sane : Env → List Call → Bool
unfolding sane
all_sane env [] = true
all_sane env (c ∷ cs) = if sane env c then all_sane env cs else false

unfoldable pub run : Env → List Call → World → Outcome
unfolding step
run env [] w = done w
run env (c ∷ cs) w = step env c w >>= run env cs

-- A minute, in nanoseconds.
abbrev minute : ℕ
minute = 60000000000

-- The limiter that `NewService` sets up.
abbrev pub new_rate : Rate
new_rate = record {
  starts = 0;
  rate_log = false;
  rate_limit = pos 10;
  rate_period = pos minute;
  start_times = replicate 10 0;
}

abbrev pub new_flags : Flags
new_flags = record { enabled = false; running = false; stopping = false; failed = false }

abbrev pub new_info : Info
new_info = record {
  err = none;
  reason = "";
  stamp = 0;
  serial = 0;
  checking = false;
  logger = none;
  notify = none;
}

abbrev default_name : String → String
default_name n = if str_eq n "" then "govisor" else n

-- `NewManager`, at the time `now`, with the services of the program as `NewService` makes them.
unfoldable pub new_manager : (Ref → Props) → String → ℕ → World
new_manager props name now = record {
  props = props;
  links = λ r. no_links;
  flags = λ r. new_flags;
  rate = λ r. new_rate;
  info = λ r. new_info;
  services = [];
  mgr_name = default_name name;
  mgr_serial = now;
  list_serial = 0;
  list_stamp = 0;
  create_time = now;
  update_time = now;
  monitoring = false;
  cleanup = false;
  tick = 0;
  trace = [];
}
