-- ===== src/Ui/LogView.antt =====
-- lpanel.go: the panel with a log.
use Prim.Native.Char.{Char}
use govisor.Common.{
  String, str_append, str_eq, Bool, false, not, Option, none, some, List, [], ◌∷◌, map,
  if◌then◌else◌, ◌⊎◌, inl,
}
use govisor.Client.Http.{Failure, message}
use govisor.Server.Http.{LogRecord}
use govisor.Ui.Bar.{Panel, normal, bad, new_panel, set_title, set_status, set_style, set_keys}
use govisor.Ui.Events.{
  Key, esc, f1, rune, show_main, show_help, show_info, Handled, done, passed, Item, Fault,
  not_found, item_of, fault_of, fault_message, LogInfo, Screen, letter, service_rune, service_words,
  service_style,
}

-- Its field `err` is read, and never set.
pub record LogPanel : Type 0 where
  pub name : String
  pub info : Option Item
  pub err : Option Fault
  pub text : List String
  pub panel : Panel

unfoldable pub set_name : String → LogPanel → LogPanel
set_name n p = record p { name = n; text = []; panel = set_title "Loading" p.panel }

-- `HandleEvent`, at a letter other than Q and H.
unfoldable pub log_rune : Option Item → Char → LogPanel → Handled LogPanel
unfolding service_rune
log_rune none c p = passed
log_rune (some s) c p =
    if letter b'I' b'i' c then done p (show_info s.info.name ∷ []) else service_rune c s.info p

unfoldable pub handle_event : Key → LogPanel → Handled LogPanel
unfolding log_rune
handle_event esc p = done p (show_main ∷ [])
handle_event f1 p = done p (show_help ∷ [])
handle_event (rune c) p =
    if letter b'Q' b'q' c
    then done p (show_main ∷ [])
    else if letter b'H' b'h' c
    then done p (show_help ∷ [])
    else log_rune p.info c p
handle_event k p = passed

unfoldable pub words : Option Item → List String
unfolding service_words
words none = "[ESC] Main" ∷ "[H] Help" ∷ []
words (some s) = "[ESC] Main" ∷ "[H] Help" ∷ "[I] Info" ∷ service_words s.info

unfoldable pub log_line : Screen → LogRecord → String
log_line screen r = str_append (screen.show_stamp r.time) (str_append " " r.text)

abbrev pub title_of : String → String
title_of n = if str_eq n "" then "Consolidated Log" else str_append "Log for " n

-- The error of the log before that of the service, with `%v`.
abbrev pub told : Option Failure → Option Fault → String
told (some e) f = message e
told none (some e) = fault_message e
told none none = "<nil>"

abbrev pub no_data : Option Fault → String → Panel → Panel
no_data none s p = set_style normal (set_status "Loading ..." p)
no_data (some e) s p = set_style bad (set_status (str_append "No data: " s) p)

-- The status bar has the style of the service, or the one that it had.
abbrev pub shade : Option Item → Panel → Panel
shade none p = p
shade (some s) p = set_style (service_style s.info) p

-- A service or the whole log, with a log that was loaded or none.
unfoldable pub redraw : Screen → Option LogInfo → String → LogPanel → LogPanel
unfolding words set_keys log_line service_style
redraw screen none s p = record p {
  text = "" ∷ [];
  panel = set_keys (words none) (no_data p.err s p.panel);
}
redraw screen (some l) s p = record p {
  text = map (log_line screen) l.records;
  panel = set_keys (words p.info) (shade p.info (set_status "" p.panel));
}

abbrev pub is_missing : Option Item → String → Bool
is_missing none n = not (str_eq n "")
is_missing (some i) n = false

-- `update`, with what `GetItem` and `GetLog` return.
unfoldable pub update :
    Screen → Fault ⊎ Item → Option LogInfo × Option Failure → LogPanel → LogPanel
unfolding redraw fault_message message
update screen r (l, e) p =
    let q : LogPanel = record p { info = item_of r; panel = set_title (title_of p.name) p.panel } in
    redraw screen (if is_missing (item_of r) p.name then none else l) (told e (fault_of r)) q

-- `NewLogPanel`, which calls `update` while the App has no service and no log.
unfoldable pub new_log_panel : Screen → LogPanel
unfolding update set_keys
new_log_panel screen =
    update screen (inl not_found) (none, none)
      (record {
        name = "";
        info = none;
        err = none;
        text = [];
        panel = set_keys ("[Q] Quit" ∷ "[H] Help" ∷ []) new_panel;
      })
