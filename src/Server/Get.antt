-- ===== src/Server/Get.antt =====
-- server/server.go: the list of services, the state of the Manager, and the logs.
use govisor.Common.{ℕ, String, Option, none, some, List, [], ◌∷◌, if◌then◌else◌, str_eq, map}
use govisor.Common.Refs.{Ref}
use govisor.World.{World, Env, Props}
use govisor.Log.{Log, Entry, Answer, unchanged, records, out_of_range, get_records}
use govisor.Number.{format_int}
use govisor.Server.Http.{
  Request, Response, Web, names, manager_info, log_records, ManagerInfo, LogRecord, quote, respond,
}

abbrev pub etag_of : ℕ → String
etag_of n = quote (format_int 16 n)

-- `m.Services()`, in the order of the map.
abbrev pub services : Env → World → List Ref
services env w = env.order w.tick w.services

unfoldable pub names_of : (Ref → Props) → List Ref → List String
names_of props [] = []
names_of props (s ∷ ss) = (props s).name ∷ names_of props ss

-- The handlers are given the world in which the wait of `checkPoll` ends.
unfoldable pub list_services : Env → Web → Request → World → Response
unfolding names_of
list_services env web r w =
    respond web r (etag_of w.list_serial) w.list_stamp (web.format_utc w.list_stamp)
      (names (names_of w.props (services env w)))

-- `GetInfo`, with the serial number in hexadecimal.
unfoldable pub get_info : World → ManagerInfo
get_info w = record {
  name = w.mgr_name;
  serial = format_int 16 w.mgr_serial;
  create_time = w.create_time;
  update_time = w.update_time;
}

unfoldable pub get_manager : Web → Request → World → Response
unfolding get_info
get_manager web r w =
    let info = get_info w in
    respond web r (quote info.serial) info.update_time (web.format_utc info.update_time)
      (manager_info info)

unfoldable pub json_record : Entry → LogRecord
json_record e = record { id = format_int 16 e.id; time = e.time; text = e.text }

-- The time of the last record, or else the time now.
unfoldable pub last_time : ℕ → List Entry → ℕ
last_time when [] = when
last_time when (e ∷ es) = last_time e.time es

-- The handlers of logs, with what `GetLog` answers; none is a panic.
unfoldable pub show_log : Web → Request → Answer → Option Response
unfolding json_record last_time
show_log web r (unchanged n) =
    some (respond web r (etag_of n) web.now (web.format_local web.now) (log_records []))
show_log web r (records es n) =
    let when = last_time web.now es in
    some (respond web r (etag_of n) when (web.format_local when) (log_records (map json_record es)))
show_log web r out_of_range = none

unfoldable pub get_manager_log : Web → Request → Log → Option Response
unfolding show_log
get_manager_log web r l = show_log web r (get_records l 0)

-- `findService`
unfoldable pub find_named : (Ref → Props) → String → List Ref → Option Ref
find_named props n [] = none
find_named props n (s ∷ ss) = if str_eq (props s).name n then some s else find_named props n ss

unfoldable pub find_service : Env → String → World → Option Ref
unfolding find_named
find_service env n w = find_named w.props n (services env w)
