-- ===== src/Ui/Events.antt =====
-- What the panels are told and what they ask for: the keys of tcell as the switches tell them apart,
-- the methods of `App`, and the services by their pointers. `mpanel.go` `sorted` is that of util.
use Prim.Native.Char.{Char, code}
use govisor.Common.{
  ℕ, ◌+◌, ◌-◌, ◌==◌, leb, String, Bool, true, false, not, ◌||◌, Option, none, some, List, [], ◌∷◌,
  if◌then◌else◌, ◌⊎◌, inl, inr,
}
use govisor.World.{ℤ, pos, negsuc}
use govisor.Client.Http.{Failure, message}
use govisor.Server.Http.{ServiceInfo, LogRecord}
use govisor.Ui.Bar.{Style, normal, good, warn, bad}

pub data Key : Type 0 where
  esc f1 enter tab backtab ctrl_u ctrl_w ctrl_c ctrl_l backspace backspace2 other : Key
  rune : Char → Key

-- The calls of the App.
pub data Act : Type 0 where
  show_main show_help show_auth quit redraw : Act
  show_info show_log enable disable clear restart : String → Act
  login : String → String → Act

-- What an event comes to: the panel and its calls, or the event goes to the panel of the library, or it
-- is not handled.
pub data Handled (P : Type 0) : Type 0 where
  done : P → List Act → Handled P
  passed : Handled P
  refused : Handled P

-- A `*rest.ServiceInfo`
pub record Item : Type 0 where
  pub address : ℕ
  pub info : ServiceInfo

-- The failure of a load, an error that is kept, or the one that GetItem makes anew each time.
pub data Fault : Type 0 where
  kept : ℕ → Failure → Fault
  not_found : Fault

-- `e.Error()`
unfoldable pub fault_message : Fault → String
unfolding message
fault_message (kept n f) = message f
fault_message not_found = "Service not found"

-- The two results of `GetItem`.
abbrev pub item_of : Fault ⊎ Item → Option Item
item_of (inl e) = none
item_of (inr s) = some s

abbrev pub fault_of : Fault ⊎ Item → Option Fault
fault_of (inl e) = some e
fault_of (inr s) = none

-- `rest.LogInfo`, by its records.
pub record LogInfo : Type 0 where
  pub log_name : String
  pub records : List LogRecord

-- What comes from the libraries: the padding of fmt, the bytes of a string, the time since, and
-- times in print.
pub record Screen : Type 0 where
  pub pad_left : ℕ → String → String
  pub pad_right : ℕ → String → String
  pub bytes : String → List ℕ
  pub since : ℕ → ℤ
  pub show_time : ℕ → String
  pub show_stamp : ℕ → String

-- A letter, in upper or in lower case.
abbrev pub letter : ℕ → ℕ → Char → Bool
letter upper lower c = code c == upper || code c == lower

abbrev pub when : {P : Type 0} → Bool → P → Act → Handled P
when true p a = done p (a ∷ [])
when false p a = passed

-- The keys E, D, C and R, for a service.
unfoldable pub service_rune : {P : Type 0} → Char → ServiceInfo → P → Handled P
service_rune c s p =
    if letter b'E' b'e' c
    then when (not s.enabled) p (enable s.name)
    else if letter b'D' b'd' c
    then when s.enabled p (disable s.name)
    else if letter b'C' b'c' c
    then when s.failed p (clear s.name)
    else if letter b'R' b'r' c
    then done p (restart s.name ∷ [])
    else passed

-- The words for E, D, C and R.
unfoldable pub service_words : ServiceInfo → List String
service_words s =
    if not s.enabled
    then "[E] Enable" ∷ []
    else if s.failed
    then "[D] Disable" ∷ "[C] Clear" ∷ "[R] Restart" ∷ []
    else "[D] Disable" ∷ "[R] Restart" ∷ []

-- `+` on integers.
abbrev pub add : ℤ → ℤ → ℤ
add (pos a) (pos b) = pos (a + b)
add (pos a) (negsuc b) = if leb a b then negsuc (b - a) else pos (a - b - 1)
add (negsuc a) (pos b) = if leb b a then negsuc (a - b) else pos (b - a - 1)
add (negsuc a) (negsuc b) = negsuc (a + b + 1)

-- The style of the status bar for a service.
unfoldable pub service_style : ServiceInfo → Style
service_style s =
    if not s.enabled then normal else if s.failed then bad else if s.running then good else warn
