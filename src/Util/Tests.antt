-- ===== src/Util/Tests.antt =====
-- Services in order, and times in print.
use govisor.Common.{String, Bool, true, false, ◌≡◌, refl, []}
use govisor.World.{pos}
use govisor.Server.Http.{ServiceInfo}
use govisor.Util.{format_duration}

abbrev service : String → Bool → Bool → ServiceInfo
service n on bad = record {
  name = n;
  description = "";
  enabled = on;
  running = false;
  failed = bad;
  provides = [];
  depends = [];
  conflicts = [];
  status = "";
  time_stamp = 3;
  serial = "5";
}

abbrev broken : ServiceInfo
broken = service "web" true true

abbrev waiting : ServiceInfo
waiting = service "db" true false

abbrev off : ServiceInfo
off = service "at" false false

hour_printed : format_duration (pos 3661000000000) ≡ "1:01:01"
unfolding format_duration
hour_printed = refl
