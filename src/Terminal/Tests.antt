-- ===== src/Terminal/Tests.antt =====
-- The status of services, one of which is not there.
use govisor.Common.{true, false, none, [], ◌∷◌, inl, inr, str_eq, if◌then◌else◌}
use govisor.Client.Http.{coded}
use govisor.Server.Http.{ServiceInfo}
use govisor.Terminal.{Remote}

abbrev db : ServiceInfo
db = record {
  name = "db";
  description = "";
  enabled = true;
  running = true;
  failed = false;
  provides = [];
  depends = [];
  conflicts = [];
  status = "Healthy";
  time_stamp = 3;
  serial = "5";
}

abbrev remote : Remote
remote = record {
  services = inr ("db" ∷ []);
  post = λ n a. none;
  get_log = λ n. inr [];
  get_service = λ n. if str_eq n "db" then inr db else inl (coded 404 "Service not found");
  sort_names = λ ns. ns;
  sort_services = λ is. is;
  pad_left = λ n s. s;
  pad_right = λ n s. s;
  show_time = λ t. "";
  show_since = λ t. "";
  now = 7;
  ui = none;
  program = "govisor";
}
