-- ===== src/Terminal.antt =====
-- govisor/main.go: the commands of the terminal client, but for the panels.
pub mod Status
mod Tests
use Prim.Native.Char.{Char, code}
use govisor.Common.{
  ℕ, zero, suc, ◌-◌, ◌%◌, str_eq, ◌==◌, String, Bool, true, false, Option, none, some, List, [],
  ◌∷◌, ◌++◌, map, ◌⊎◌, inl, inr, if◌then◌else◌, str_append,
}
use govisor.World.{ℤ, pos}
use govisor.Client.Http.{Failure, message}
use govisor.Server.Http.{ServiceInfo, LogRecord, second}
use govisor.Util.{status, format_duration}

-- What the commands ask of the client, the sorting, the padding and the times of the library, and the
-- panels. The time since a service has changed is not negative.
pub record Remote : Type 0 where
  pub services : Failure ⊎ List String
  pub post : String → String → Option Failure
  pub get_log : String → Failure ⊎ List LogRecord
  pub get_service : String → Failure ⊎ ServiceInfo
  pub sort_names : List String → List String
  pub sort_services : List ServiceInfo → List ServiceInfo
  pub pad_left : ℕ → String → String
  pub pad_right : ℕ → String → String
  pub show_time : ℕ → String
  pub show_since : ℕ → String
  pub now : ℕ
  pub ui : Option Failure
  pub program : String

-- The lines that are printed, and the one on standard error if the program ends with status 1.
pub record Exit : Type 0 where
  pub lines : List String
  pub error : Option String

-- All but the first characters.
unfoldable pub behind : ℕ → String → String
behind zero s = s
behind (suc n) String.[] = ""
behind (suc n) (String.◌∷◌ c s) = behind n s

unfoldable pub starts_with_4 : String → Bool
starts_with_4 String.[] = false
starts_with_4 (String.◌∷◌ c s) = code c == b'4'

unfoldable pub is_empty : String → Bool
is_empty String.[] = true
is_empty (String.◌∷◌ c s) = false

unfoldable pub fatal : String → Failure → Exit
unfolding behind starts_with_4 is_empty message
fatal f e =
    let msg = message e in
    let shown =
      if is_empty (behind 4 msg) then msg else if starts_with_4 msg then behind 4 msg else msg in
    record { lines = []; error = some (str_append (str_append f ": ") shown) }

abbrev pub prints : List String → Exit
prints ls = record { lines = ls; error = none }

-- `a: b`, with the names of a list behind it.
unfoldable pub row : String → List String → String
row s [] = s
row s (x ∷ xs) = row (str_append (str_append s " ") x) xs

module _ (r : Remote) where
  abbrev pub usage : Exit
  usage = record {
    lines = [];
    error = some (str_append (str_append "Usage: " r.program) " [flags] <subcommand> [args]");
  }

  unfoldable pub show_status : ServiceInfo → String
  unfolding status format_duration
  show_status s =
      let d = r.now - s.time_stamp in
      row (r.pad_right 20 s.name) (
        r.pad_right 10 (status s)
        ∷ str_append " " (r.pad_left 10 (format_duration (pos (d - d % second))))
        ∷ str_append "   " s.status
        ∷ [])

  -- `postService` of the client, and what follows.
  unfoldable pub act : String → List String → Exit
  unfolding fatal
  act action (n ∷ []) = elim (r.post n action) [ none ↦ prints [] | some e ↦ fatal "Error" e ]
  act action ns = usage

  unfoldable pub list_services : List String → Exit
  unfolding fatal
  list_services [] = elim r.services [ inl e ↦ fatal "Error" e | inr ns ↦ prints (r.sort_names ns) ]
  list_services ns = usage

  unfoldable pub log_line : LogRecord → String
  log_line l = str_append (str_append (r.show_time l.time) " ") l.text

  unfoldable pub log_of : Failure ⊎ List LogRecord → Exit
  unfolding fatal log_line
  log_of (inl e) = fatal "Error" e
  log_of (inr ls) = prints (map log_line ls)

  -- Any further name makes it the log that is empty.
  unfoldable pub show_log : List String → Exit
  unfolding log_of
  show_log [] = log_of (r.get_log "")
  show_log (n ∷ []) = log_of (r.get_log n)
  show_log ns = prints []

  unfoldable pub info_lines : ServiceInfo → List String
  unfolding row status
  info_lines s =
      str_append "Name:      " s.name
      ∷ str_append "Desc:      " s.description
      ∷ str_append "Status:    " (status s)
      ∷ str_append "Since:     " (r.show_since (r.now - s.time_stamp))
      ∷ str_append "Detail:    " s.status
      ∷ row "Provides: " s.provides
      ∷ row "Depends:   " s.depends
      ∷ row "Conflicts: " s.conflicts
      ∷ []

  unfoldable pub show_info : List String → Exit
  unfolding info_lines fatal
  show_info (n ∷ []) = elim (r.get_service n) [
    | inl e ↦ fatal "Failed" e
    | inr s ↦ prints (info_lines s)
  ]
  show_info ns = usage

  -- The loop of `status`: the first failure ends it.
  unfoldable pub gather : List String → Failure ⊎ List ServiceInfo
  gather [] = inr []
  gather (n ∷ ns) =
      let rest = gather ns in
      elim (r.get_service n) [
        | inl e ↦ inl e
        | inr s ↦ elim rest [ inl e ↦ inl e | inr ss ↦ inr (s ∷ ss) ]
      ]

  unfoldable pub show_statuses : List String → Exit
  unfolding gather show_status fatal
  show_statuses [] = prints []
  show_statuses (n ∷ ns) = elim (gather (n ∷ ns)) [
    | inl e ↦ fatal "Error" e
    | inr ss ↦ prints (map show_status (r.sort_services ss))
  ]

  unfoldable pub status_of : List String → Exit
  unfolding show_statuses
  status_of [] = elim r.services [ inl e ↦ fatal "Error" e | inr ns ↦ show_statuses ns ]
  status_of (n ∷ ns) = show_statuses (n ∷ ns)

  abbrev pub open_ui : Exit → Exit
  open_ui otherwise = elim r.ui [ none ↦ prints [] | some e ↦ otherwise ]

  abbrev ui_failed : Option Failure → Exit
  ui_failed none = prints []
  ui_failed (some e) = fatal "Error" e

  -- The switch; any other command does nothing.
  unfoldable pub command : String → List String → Exit
  unfolding list_services act show_log show_info status_of fatal
  command c args =
      if str_eq c "services"
      then list_services args
      else if str_eq c "enable"
      then act "enable" args
      else if str_eq c "disable"
      then act "disable" args
      else if str_eq c "restart"
      then act "restart" args
      else if str_eq c "clear"
      then act "clear" args
      else if str_eq c "log"
      then show_log args
      else if str_eq c "info"
      then show_info args
      else if str_eq c "status"
      then status_of args
      else if str_eq c "ui"
      then ui_failed r.ui
      else prints []

  -- The arguments behind the flags: without any, the panels, or else the status of all services.
  unfoldable pub run : List String → Exit
  unfolding command status_of
  run [] = open_ui (status_of [])
  run (c ∷ args) = command c args
