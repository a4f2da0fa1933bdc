-- ===== src/Ui/Loop.antt =====
-- app.go: the events of the program: keys, redraws, posted functions, and what the loops load.
use govisor.Common.{
  ℕ, zero, suc, String, str_eq, true, Option, none, some, List, [], ◌∷◌, if◌then◌else◌,
}
use govisor.Client.Http.{Failure}
use govisor.Ui.Events.{
  Key, ctrl_c, ctrl_l, Act, quit, redraw, Item, LogInfo, Screen, Handled, done, passed, refused,
}
use govisor.Ui.Main as Main
use govisor.Ui.Main.Load as Load
use govisor.Ui.Auth as Auth
use govisor.Ui.Info as Info
use govisor.Ui.LogView as LogView
use govisor.Ui.Help as Help
use govisor.Ui.App.{
  Widget, info_panel, help_panel, auth_panel, log_panel, main_panel, Posted, items_loaded,
  log_loaded, Loop, App, post, act, perform, get_item, get_log,
}

unfoldable pub acts : List Act → App → App
unfolding act
acts [] a = a
acts (x ∷ xs) a = acts xs (act x a)

-- A panel that has handled an event, and its calls.
unfoldable pub finish : {P : Type 0} → (P → App) → App → Handled P → App
unfolding acts
finish put a (done p xs) = acts xs (put p)
finish put a passed = a
finish put a refused = a

-- The panel that is shown handles the key; there is none where the program ends.
unfoldable pub handle_at : Widget → Key → App → Option App
unfolding finish Main.handle_event Auth.handle_event Info.handle_event LogView.handle_event
    Help.handle_event
handle_at main_panel k a = elim (Main.handle_event k a.main) [
  | none ↦ none
  | some h ↦ some (finish (λ p. record a { main = p }) a h)
]
handle_at auth_panel k a = some (finish (λ p. record a { auth = p }) a (Auth.handle_event k a.auth))
handle_at info_panel k a = some (finish (λ p. record a { info = p }) a (Info.handle_event k a.info))
handle_at log_panel k a = some (finish (λ p. record a { log = p }) a (LogView.handle_event k a.log))
handle_at help_panel k a = some (finish (λ p. record a { help = p }) a (Help.handle_event k a.help))

-- `HandleEvent`
unfoldable pub handle_event : Key → App → Option App
unfolding handle_at act
handle_event ctrl_c a = some (act quit a)
handle_event ctrl_l a = some (act redraw a)
handle_event k a = handle_at a.panel k a

abbrev pub failure_of : Option (ℕ × Failure) → Option Failure
failure_of none = none
failure_of (some (n, e)) = some e

-- `Draw` of the panel that is shown, up to the library's.
unfoldable pub draw_at : Screen → Widget → App → App
unfolding acts Load.update Auth.update Info.update LogView.update Help.draw get_item get_log
draw_at screen main_panel a =
    let (m, xs) = Load.update screen a.items (failure_of a.err) a.main in
    acts xs (record a { main = m })
draw_at screen auth_panel a = record a { auth = Auth.update a.auth }
draw_at screen info_panel a = record a { info = Info.update screen (get_item a.info.name a) a.info }
draw_at screen log_panel a = record a {
  log = LogView.update screen (get_item a.log.name a) (get_log a.log.name a) a.log;
}
draw_at screen help_panel a = record a { help = Help.draw a.help }

-- The loop at an index; a loop that is cancelled ends behind its next post.
abbrev pub loop_at : List Loop → ℕ → Option Loop
loop_at [] k = none
loop_at (l ∷ ls) zero = some l
loop_at (l ∷ ls) (suc k) = loop_at ls k

abbrev pub remove_at : List Loop → ℕ → List Loop
remove_at [] k = []
remove_at (l ∷ ls) zero = ls
remove_at (l ∷ ls) (suc k) = l ∷ remove_at ls k

abbrev pub expire_at : List Loop → ℕ → List Loop
expire_at [] k = []
expire_at (l ∷ ls) zero = record l { cancelled = true } ∷ ls
expire_at (l ∷ ls) (suc k) = l ∷ expire_at ls k

-- `refreshLog`: what was loaded is posted, and then a context that is done ends it.
unfoldable pub log_round : ℕ → Option LogInfo → Option Failure → App → App
log_round k info e a = elim (loop_at a.loops k) [
  | none ↦ a
  | some l ↦
      post (log_loaded l.name info e)
        (record a { loops = if l.cancelled then remove_at a.loops k else a.loops })
]

-- `refreshLog`: a watch that failed while the context is done ends it.
unfoldable pub log_end : ℕ → App → App
log_end k a = elim (loop_at a.loops k) [
  | none ↦ a
  | some l ↦ record a { loops = if l.cancelled then remove_at a.loops k else a.loops }
]

-- The posted functions are run in order.
unfoldable pub run_posted : List Posted → App → App
unfolding perform
run_posted [] a = a
run_posted (p ∷ ps) a = perform p (record a { posted = ps })

-- The posted functions read variables that the goroutines assign to again: `e` of `refresh`, behind
-- the watch, and `info` and `e` of `refreshLog`, behind the next load. The function at an index of the
-- queue then has the new values.
unfoldable pub after_watch : Option (ℕ × Failure) → Posted → Posted
after_watch e (items_loaded is f) = items_loaded is e
after_watch e p = p

unfoldable pub after_load : String → Option LogInfo → Option Failure → Posted → Posted
after_load n info e (log_loaded m o f) =
    if str_eq m n then log_loaded m info e else log_loaded m o f
after_load n info e p = p

unfoldable pub assign_at : ℕ → (Posted → Posted) → List Posted → List Posted
assign_at k f [] = []
assign_at zero f (p ∷ ps) = f p ∷ ps
assign_at (suc k) f (p ∷ ps) = p ∷ assign_at k f ps

-- What happens: a key, a redraw, the next posted function, a round of `refresh`, a round of a
-- `refreshLog`, its end, or the end of the hour that its context is given; or a goroutine assigns to
-- what a posted function reads, `refresh` or the `refreshLog` of a name.
pub data Event : Type 0 where
  key : Key → Event
  drawn : Event
  run : Event
  refreshed : List Item → Option (ℕ × Failure) → Event
  fetched : ℕ → Option LogInfo → Option Failure → Event
  ended : ℕ → Event
  expired : ℕ → Event
  watched : ℕ → Option (ℕ × Failure) → Event
  reloaded : String → ℕ → Option LogInfo → Option Failure → Event

unfoldable pub step : Screen → Event → App → Option App
unfolding handle_event draw_at run_posted log_round log_end after_watch after_load assign_at
step screen (key k) a = handle_event k a
step screen drawn a = some (draw_at screen a.panel a)
step screen run a = some (run_posted a.posted a)
step screen (refreshed is e) a = some (post (items_loaded is e) a)
step screen (fetched k info e) a = some (log_round k info e a)
step screen (ended k) a = some (log_end k a)
step screen (expired k) a = some (record a { loops = expire_at a.loops k })
step screen (watched k e) a = some (record a { posted = assign_at k (after_watch e) a.posted })
step screen (reloaded n k info e) a =
    some (record a { posted = assign_at k (after_load n info e) a.posted })
