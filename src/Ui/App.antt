-- ===== src/Ui/App.antt =====
-- app.go: what the panels share: the services and the log that were loaded, and the panel that is
-- shown. The loops of `refresh` and `refreshLog` run beside it, and post functions to it.
use govisor.Common.{
  ℕ, suc, String, str_eq, Bool, true, false, Option, none, some, List, [], ◌∷◌, ◌++◌, map,
  if◌then◌else◌, ◌⊎◌, inl, inr,
}
use govisor.Client.Http.{Failure}
use govisor.Ui.Bar.{Panel, new_panel}
use govisor.Ui.Info as Info
use govisor.Ui.Info.{InfoPanel, new_info_panel}
use govisor.Ui.LogView as LogView
use govisor.Ui.LogView.{LogPanel, new_log_panel}
use govisor.Ui.Auth.{AuthPanel, new_auth_panel, reset_fields}
use govisor.Ui.Main.{MainPanel, new_main_panel}
use govisor.Ui.Events.{
  LogInfo, Screen, Act, show_main, show_help, show_auth, show_info, show_log, quit, enable, disable,
  clear, restart, login, redraw, Item, Fault, kept, not_found,
}

-- The panels.
pub data Widget : Type 0 where
  info_panel help_panel auth_panel log_panel main_panel : Widget

-- What was called of the client: `SetAuth` and the calls of a service.
pub data Call : Type 0 where
  set_auth : String → String → Call
  enable_service disable_service clear_service restart_service : String → Call

-- A function that was posted: the panel to show, what `refresh` loaded, or what `refreshLog` loaded
-- for a name.
pub data Posted : Type 0 where
  show : Widget → Posted
  items_loaded : List Item → Option (ℕ × Failure) → Posted
  log_loaded : String → Option LogInfo → Option Failure → Posted

-- A `refreshLog` that runs: its name, and whether its context was cancelled.
pub record Loop : Type 0 where
  pub name : String
  pub cancelled : Bool

-- The App with its panels, and what is under way: the posted functions, the loops, the calls of the
-- client, how often `refresh` was to be woken, and whether the end was asked for.
pub record App : Type 0 where
  pub panel : Widget
  pub info : InfoPanel
  pub help : Panel
  pub auth : AuthPanel
  pub log : LogPanel
  pub main : MainPanel
  pub err : Option (ℕ × Failure)
  pub items : List Item
  pub log_name : String
  pub log_info : Option LogInfo
  pub log_err : Option Failure
  pub posted : List Posted
  pub loops : List Loop
  pub calls : List Call
  pub wakes : ℕ
  pub quitting : Bool

-- `NewApp`
unfoldable pub new_app : Screen → String → App
unfolding new_info_panel new_auth_panel new_log_panel new_main_panel
new_app screen url = record {
  panel = main_panel;
  info = new_info_panel;
  help = new_panel;
  auth = new_auth_panel url;
  log = new_log_panel screen;
  main = new_main_panel url;
  err = none;
  items = [];
  log_name = "";
  log_info = none;
  log_err = none;
  posted = [];
  loops = [];
  calls = [];
  wakes = 0;
  quitting = false;
}

abbrev pub post : Posted → App → App
post p a = record a { posted = a.posted ++ p ∷ [] }

abbrev pub call : Call → App → App
call c a = record a { calls = a.calls ++ c ∷ [] }

unfoldable pub show_widget : Widget → App → App
show_widget w a = post (show w) a

-- Only the last loop may still run: it is the one whose cancel function is kept.
abbrev pub cancel : Loop → Loop
cancel l = record l { cancelled = true }

unfoldable pub open_log : String → App → App
unfolding show_widget LogView.set_name
open_log n a = show_widget log_panel (record a {
  log_info = none;
  log_name = n;
  log = LogView.set_name n a.log;
  loops = map cancel a.loops ++ record { name = n; cancelled = false } ∷ [];
})

unfoldable pub open_info : String → App → App
unfolding show_widget Info.set_name
open_info n a = show_widget info_panel (record a { info = Info.set_name n a.info })

unfoldable pub open_auth : App → App
unfolding show_widget reset_fields
open_auth a = show_widget auth_panel (record a { auth = reset_fields a.auth })

-- `SetUserPassword`; the send to `wake` is taken by a loop that waits, if there is one.
unfoldable pub set_user_password : String → String → App → App
set_user_password user pass a = record (call (set_auth user pass) a) {
  items = [];
  err = none;
  wakes = suc a.wakes;
}

-- The calls of the panels.
unfoldable pub act : Act → App → App
unfolding show_widget open_log open_info open_auth set_user_password
act show_main a = show_widget main_panel a
act show_help a = show_widget help_panel a
act show_auth a = open_auth a
act (show_info n) a = open_info n a
act (show_log n) a = open_log n a
act (login user pass) a = set_user_password user pass a
act (enable n) a = call (enable_service n) a
act (disable n) a = call (disable_service n) a
act (clear n) a = call (clear_service n) a
act (restart n) a = call (restart_service n) a
act quit a = record a { quitting = true }
act redraw a = a

-- What a posted function does.
unfoldable pub perform : Posted → App → App
perform (show w) a = record a { panel = w }
perform (items_loaded is e) a = record a { items = is; err = e }
perform (log_loaded n info e) a =
    if str_eq a.log_name n then record a { log_info = info; log_err = e } else a

-- `getItems`, with the names that `Services` returns, what `GetService` returns for each, and the
-- sorting of util.go.
module _ (sort_services : List Item → List Item) (get_service : String → Failure ⊎ Item) where
  unfoldable pub collect : List String → List Item
  collect [] = []
  collect (n ∷ ns) =
      let rest = collect ns in elim (get_service n) [ inl e ↦ rest | inr i ↦ i ∷ rest ]

  unfoldable pub get_items : Failure ⊎ List String → Failure ⊎ List Item
  unfolding collect
  get_items (inl e) = inl e
  get_items (inr ns) = inr (sort_services (collect ns))

-- `GetItem`
unfoldable pub find_item : String → List Item → Option Item
find_item n [] = none
find_item n (i ∷ is) = let rest = find_item n is in if str_eq i.info.name n then some i else rest

unfoldable pub get_item : String → App → Fault ⊎ Item
unfolding find_item
get_item n a = elim a.err [
  | some (n, e) ↦ inl (kept n e)
  | none ↦ elim (find_item n a.items) [ none ↦ inl not_found | some i ↦ inr i ]
]

-- `GetLog`
unfoldable pub get_log : String → App → Option LogInfo × Option Failure
get_log n a = if str_eq a.log_name n then (a.log_info, a.log_err) else (none, none)
