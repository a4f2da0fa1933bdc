-- ===== src/Ui/Info.antt =====
-- ipanel.go: the panel with the details of a service.
pub mod Fresh
use Prim.Native.Char.{Char}
use govisor.Common.{
  ℕ, ◌==◌, String, str_append, Bool, true, false, ◌&&◌, Option, none, some, List, [], ◌∷◌, ◌++◌,
  if◌then◌else◌, ◌⊎◌, inl, inr,
}
use govisor.Client.Http.{Failure, message}
use govisor.Server.Http.{ServiceInfo}
use govisor.Util.{status}
use govisor.Terminal.{row}
use govisor.Ui.Bar.{Panel, normal, bad, new_panel, set_title, set_status, set_style, set_keys}
use govisor.Ui.Events.{
  Key, esc, f1, rune, show_main, show_help, show_log, Handled, done, passed, Item, Fault, kept,
  not_found, item_of, fault_of, fault_message, Screen, letter, service_rune, service_words,
  service_style,
}

pub record InfoPanel : Type 0 where
  pub name : String
  pub info : Option Item
  pub err : Option Fault
  pub text : List String
  pub panel : Panel

-- `NewInfoPanel`
unfoldable pub new_info_panel : InfoPanel
unfolding set_keys
new_info_panel = record {
  name = "";
  info = none;
  err = none;
  text = [];
  panel = set_keys ("[Q] Quit" ∷ "[H] Help" ∷ []) new_panel;
}

unfoldable pub set_name : String → InfoPanel → InfoPanel
set_name n i = record i { name = n }

-- `HandleEvent`, at a letter other than Q and H.
unfoldable pub info_rune : Option Item → Char → InfoPanel → Handled InfoPanel
unfolding service_rune
info_rune none c i = passed
info_rune (some s) c i =
    if letter b'L' b'l' c then done i (show_log s.info.name ∷ []) else service_rune c s.info i

unfoldable pub handle_event : Key → InfoPanel → Handled InfoPanel
unfolding info_rune
handle_event esc i = done i (show_main ∷ [])
handle_event f1 i = done i (show_help ∷ [])
handle_event (rune c) i =
    if letter b'Q' b'q' c
    then done i (show_main ∷ [])
    else if letter b'H' b'h' c
    then done i (show_help ∷ [])
    else info_rune i.info c i
handle_event k i = passed

-- Pointers are equal. The error that GetItem makes is new each time.
abbrev pub same_item : Option Item → Option Item → Bool
same_item none none = true
same_item none (some j) = false
same_item (some i) none = false
same_item (some i) (some j) = i.address == j.address

abbrev pub same_fault : Option Fault → Option Fault → Bool
same_fault none none = true
same_fault (some (kept a f)) (some (kept b g)) = a == b
same_fault e f = false

-- `%13s`, and a text behind it.
abbrev pub labelled : Screen → String → String → String
labelled screen label s = str_append (screen.pad_left 13 label) (str_append " " s)

unfoldable pub info_lines : Screen → ServiceInfo → List String
unfolding status row
info_lines screen s =
    labelled screen "Name:" s.name
    ∷ labelled screen "Description:" s.description
    ∷ labelled screen "Status:" (status s)
    ∷ labelled screen "Since:" (screen.show_time s.time_stamp)
    ∷ labelled screen "Detail:" s.status
    ∷ row (screen.pad_left 13 "Provides:") s.provides
    ∷ row (screen.pad_left 13 "Depends:") s.depends
    ∷ row (screen.pad_left 13 "Conflicts:") s.conflicts
    ∷ []

unfoldable pub words : Option Item → List String
unfolding service_words
words none = "[ESC] Main" ∷ "[H] Help" ∷ []
words (some s) = "[ESC] Main" ∷ "[H] Help" ∷ "[L] Log" ∷ service_words s.info

-- What is shown without a service, by the error.
abbrev pub no_data : Option Fault → Panel → Panel
no_data none p = set_style normal (set_status "Loading..." p)
no_data (some e) p = set_style bad (set_status (str_append "No data: " (fault_message e)) p)

-- All that `update` shows.
unfoldable pub redraw : Screen → Option Item → InfoPanel → InfoPanel
unfolding info_lines words set_keys fault_message service_style
redraw screen none i = record i {
  text = [];
  panel =
      set_keys (words none) (no_data i.err (set_title (str_append "Details for " i.name) i.panel));
}
redraw screen (some s) i = record i {
  text = info_lines screen s.info;
  panel = set_keys (words (some s)) (
      set_style (service_style s.info)
        (set_status "" (set_title (str_append "Details for " i.name) i.panel)));
}

-- `update`, with what `GetItem` returns; it returns early if that is the same as before.
unfoldable pub update : Screen → Fault ⊎ Item → InfoPanel → InfoPanel
unfolding redraw
update screen r i =
    if same_item i.info (item_of r) && same_fault i.err (fault_of r)
    then i
    else redraw screen (item_of r) (record i { info = item_of r; err = fault_of r })
