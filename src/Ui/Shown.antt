-- ===== src/Ui/Shown.antt =====
-- app.go, lpanel.go: keys and redraws keep the log that is shown right.
use govisor.Common.{String, Option, none, some, ◌≡◌, refl, sym, ap, ◌∙◌, ◌⊎◌}
use govisor.Client.Http.{Failure}
use govisor.Ui.Events.{
  Key, esc, f1, enter, tab, backtab, ctrl_u, ctrl_w, ctrl_c, ctrl_l, backspace, backspace2, other,
  rune, Item, Fault, LogInfo, Screen, Handled, done, passed, refused, letter,
}
use govisor.Ui.Keeps.{Keeps, acted, went_on, Keeps-if, service_rune-Keeps}
use govisor.Ui.Main as Main
use govisor.Ui.LogView as LogView
use govisor.Ui.Auth as Auth
use govisor.Ui.Info as Info
use govisor.Ui.Help as Help
use govisor.Ui.Main.Load as Load
use govisor.Ui.LogView.{LogPanel, log_line}
use govisor.Ui.App.{
  Widget, info_panel, help_panel, auth_panel, log_panel, main_panel, App, act, get_item, get_log,
}
use govisor.Ui.Loop.{finish, handle_at, handle_event, draw_at, failure_of}
use govisor.Ui.Logs.{AppRight, acts-Right}

log_key-Keeps : (k : Key) (p : LogPanel) → Keeps p (LogView.handle_event k p)
unfolding LogView.handle_event LogView.log_rune
log_key-Keeps esc p = acted
log_key-Keeps f1 p = acted
log_key-Keeps (rune c) p =
    Keeps-if (letter b'Q' b'q' c) acted (Keeps-if (letter b'H' b'h' c) acted (among p.info))
  where
    among : (o : Option Item) → Keeps p (LogView.log_rune o c p)
    among none = went_on
    among (some i) = Keeps-if (letter b'I' b'i' c) acted (service_rune-Keeps c i.info p)
log_key-Keeps enter p = went_on
log_key-Keeps tab p = went_on
log_key-Keeps backtab p = went_on
log_key-Keeps ctrl_u p = went_on
log_key-Keeps ctrl_w p = went_on
log_key-Keeps ctrl_c p = went_on
log_key-Keeps ctrl_l p = went_on
log_key-Keeps backspace p = went_on
log_key-Keeps backspace2 p = went_on
log_key-Keeps other p = went_on

pub name-redraw :
    (screen : Screen) (o : Option LogInfo) (s : String) (p : LogPanel)
    → (LogView.redraw screen o s p).name ≡ p.name
unfolding LogView.redraw
name-redraw screen none s p = refl
name-redraw screen (some l) s p = refl

pub name-update :
    (screen : Screen) (r : Fault ⊎ Item) (l : Option LogInfo) (e : Option Failure) (p : LogPanel)
    → (LogView.update screen r (l, e) p).name ≡ p.name
unfolding LogView.update
name-update screen r l e p = name-redraw screen _ _ _

module _ (Of : String → LogInfo → Type 0) where
  -- The program has ended, or what it keeps is right.
  pub data Well : Option App → Type 0 where
    over : Well none
    well : {a : App} → AppRight Of a → Well (some a)

  finish-Right :
      {P : Type 0} (put : P → App) (a : App) (h : Handled P)
      → ((p : P) → AppRight Of (put p))
      → AppRight Of a
      → AppRight Of (finish put a h)
  unfolding finish
  finish-Right put a (done p xs) f r = acts-Right Of xs (put p) (f p)
  finish-Right put a passed f r = r
  finish-Right put a refused f r = r

  finish-log :
      (a : App) (p : LogPanel) (h : Handled LogPanel)
      → Keeps p h
      → a.log ≡ p
      → AppRight Of a
      → AppRight Of (finish (λ q. record a { log = q }) a h)
  unfolding finish
  finish-log a p _ (acted {acts = xs}) e r =
      acts-Right Of xs (record a { log = p })
        (record {
          shown = r.shown;
          same_name = ap (λ q. q.name) (sym e) ∙ r.same_name;
          queued = r.queued;
          loops = r.loops;
        })
  finish-log a p _ went_on e r = r

  handle_at-Well : (w : Widget) (k : Key) (a : App) → AppRight Of a → Well (handle_at w k a)
  unfolding handle_at
  handle_at-Well main_panel k a r = among (Main.handle_event k a.main)
    where
      among :
          (o : Option (Handled Main.MainPanel))
          → Well (elim o [ none ↦ none | some h ↦ some (finish (λ p. record a { main = p }) a h) ])
      among none = over
      among (some h) = well (finish-Right (λ p. record a { main = p }) a h (λ p. r) r)
  handle_at-Well auth_panel k a r =
      well (finish-Right (λ p. record a { auth = p }) a (Auth.handle_event k a.auth) (λ p. r) r)
  handle_at-Well info_panel k a r =
      well (finish-Right (λ p. record a { info = p }) a (Info.handle_event k a.info) (λ p. r) r)
  handle_at-Well help_panel k a r =
      well (finish-Right (λ p. record a { help = p }) a (Help.handle_event k a.help) (λ p. r) r)
  handle_at-Well log_panel k a r =
      well (finish-log a a.log (LogView.handle_event k a.log) (log_key-Keeps k a.log) refl r)

  pub handle_event-Well : (k : Key) (a : App) → AppRight Of a → Well (handle_event k a)
  unfolding handle_event act
  handle_event-Well ctrl_c a r = well r
  handle_event-Well ctrl_l a r = well r
  handle_event-Well esc a r = handle_at-Well a.panel esc a r
  handle_event-Well f1 a r = handle_at-Well a.panel f1 a r
  handle_event-Well enter a r = handle_at-Well a.panel enter a r
  handle_event-Well tab a r = handle_at-Well a.panel tab a r
  handle_event-Well backtab a r = handle_at-Well a.panel backtab a r
  handle_event-Well ctrl_u a r = handle_at-Well a.panel ctrl_u a r
  handle_event-Well ctrl_w a r = handle_at-Well a.panel ctrl_w a r
  handle_event-Well backspace a r = handle_at-Well a.panel backspace a r
  handle_event-Well backspace2 a r = handle_at-Well a.panel backspace2 a r
  handle_event-Well other a r = handle_at-Well a.panel other a r
  handle_event-Well (rune c) a r = handle_at-Well a.panel (rune c) a r

  pub draw_at-Right :
      (screen : Screen) (w : Widget) (a : App) → AppRight Of a → AppRight Of (draw_at screen w a)
  unfolding draw_at
  draw_at-Right screen main_panel a r =
      let drawn_main = Load.update screen a.items (failure_of a.err) a.main in
      acts-Right Of drawn_main.1 (record a { main = drawn_main.0 }) r
  draw_at-Right screen auth_panel a r = r
  draw_at-Right screen info_panel a r = r
  draw_at-Right screen help_panel a r = r
  draw_at-Right screen log_panel a r = record {
    shown = r.shown;
    same_name =
        name-update screen (get_item a.log.name a) (get_log a.log.name a).0 (get_log a.log.name a).1
          a.log
        ∙ r.same_name;
    queued = r.queued;
    loops = r.loops;
  }

  pub Well-AppRight : {a : App} → Well (some a) → AppRight Of a
  Well-AppRight (well r) = r
