-- ===== src/Ui/Tests/Sequences.antt =====
-- The panel of a service, and a log that is opened and loaded.
use govisor.Common.{
  zero, suc, ap, sym, ◌∙◌, ℕ, String, false, Option, none, some, [], ◌∷◌, map, ◌≡◌, refl, arith,
  inr, ◌⊎◌,
}
use govisor.Ui.Events.{rune, LogInfo}
use govisor.Ui.Main.{new_main_panel}
use govisor.Ui.Main.Load as Load
use govisor.Ui.Info as Info
use govisor.Ui.Info.{InfoPanel, new_info_panel}
use govisor.Ui.Info.Fresh.{Shown, Blank, blank, SamePointer, SameFailure, update-Shown}
use govisor.Ui.LogView as LogView
use govisor.Ui.LogView.{LogPanel, log_line, new_log_panel}
use govisor.Ui.App.{App, Loop, new_app, log_panel}
use govisor.Ui.Loop.{Event, key, run, fetched, step, loop_at, draw_at}
use govisor.Ui.Reach.{Honest, Reach, started, stepped, drawn-Of}
use govisor.Ui.Offered.{Offers, MainDoes, InfoDoes, LogDoes, keys-Offers}
use govisor.Ui.Tests.{screen, web, items}

fresh : Blank new_info_panel
unfolding new_info_panel
fresh = blank refl refl

unseen : SamePointer new_info_panel.info (some web)
unfolding SamePointer new_info_panel
unseen x y a b e = ground (arith, a)

no_failure : SameFailure new_info_panel.err none
unfolding SameFailure new_info_panel
no_failure a f g d e = ground (arith, d)

abbrev details : InfoPanel
details = Info.update screen (inr web) new_info_panel

update-Shown_example : Shown screen details × (details.info ≡ some web) × (details.err ≡ none)
update-Shown_example = update-Shown screen (inr web) new_info_panel unseen no_failure (inr fresh)

abbrev lines : LogInfo
lines = record { log_name = ""; records = record { id = "1"; time = 3; text = "up" } ∷ [] }

keys-Offers_example :
    let n = (Load.update screen items none (new_main_panel "host")).0 in
    let q = LogView.update screen (inr web) (some lines, none) (new_log_panel screen) in
    Offers (MainDoes n.selected n) n.panel.keys
    × Offers (InfoDoes details.info details) details.panel.keys
    × Offers (LogDoes q.info q) q.panel.keys
keys-Offers_example =
    keys-Offers screen items (new_main_panel "host") details update-Shown_example.0 (inr web)
      (some lines, none) (new_log_panel screen)

-- A log that is of a name.
abbrev Named : String → LogInfo → Type 0
Named n l = l.log_name ≡ n

abbrev reached : App → Option App → App
reached a none = a
reached a (some b) = b

abbrev after : Event → App → App
after e a = reached a (step screen e a)

abbrev at0 : App
at0 = new_app screen "host"

abbrev at1 : App
at1 = after (key (rune "l")) at0

abbrev at2 : App
at2 = after run at1

abbrev at3 : App
at3 = after (fetched 0 (some lines) none) at2

abbrev at4 : App
at4 = after run at3

key_step : step screen (key (rune "l")) at0 ≡ some at1
unfolding step new_app govisor.Ui.App.open_log govisor.Ui.App.show_widget govisor.Ui.Loop.run_posted
    govisor.Ui.App.perform govisor.Ui.Loop.log_round LogView.set_name
key_step = refl

show_step : step screen run at1 ≡ some at2
unfolding step new_app govisor.Ui.App.open_log govisor.Ui.App.show_widget govisor.Ui.Loop.run_posted
    govisor.Ui.App.perform govisor.Ui.Loop.log_round LogView.set_name
show_step = refl

fetch_step : step screen (fetched 0 (some lines) none) at2 ≡ some at3
unfolding step new_app govisor.Ui.App.open_log govisor.Ui.App.show_widget govisor.Ui.Loop.run_posted
    govisor.Ui.App.perform govisor.Ui.Loop.log_round LogView.set_name
fetch_step = refl

load_step : step screen run at3 ≡ some at4
unfolding step new_app govisor.Ui.App.open_log govisor.Ui.App.show_widget govisor.Ui.Loop.run_posted
    govisor.Ui.App.perform govisor.Ui.Loop.log_round LogView.set_name
load_step = refl

loaded : at4.log_info ≡ some lines
unfolding step new_app govisor.Ui.App.open_log govisor.Ui.App.show_widget govisor.Ui.Loop.run_posted
    govisor.Ui.App.perform govisor.Ui.Loop.log_round LogView.set_name
loaded = refl

one_loop : (k : ℕ) (p : Loop) → loop_at at2.loops k ≡ some p → p.name ≡ ""
unfolding step new_app govisor.Ui.App.open_log govisor.Ui.App.show_widget govisor.Ui.Loop.run_posted
    govisor.Ui.App.perform govisor.Ui.Loop.log_round LogView.set_name
one_loop zero p e = ap (λ o. elim o [ none ↦ "" | some q ↦ q.name ]) (sym e)
one_loop (suc k) p e = ground (arith, e)

abbrev log_of : Event → LogInfo
log_of (fetched k (some l) f) = l
log_of e = lines

honest : Honest Named at2 (fetched 0 (some lines) none)
honest = (
  λ k l f p g e. ap (λ x. (log_of x).log_name) (sym g) ∙ sym (one_loop k p e),
  λ n k l f g. ground (arith, g),
)

came : Reach Named screen "host" at4
came =
    stepped run
      (stepped (fetched 0 (some lines) none)
        (stepped run
          (stepped (key (rune "l")) started
            (λ k l f p g e. ground (arith, g), λ n k l f g. ground (arith, g)) key_step)
          (λ k l f p g e. ground (arith, g), λ n k l f g. ground (arith, g)) show_step)
        honest fetch_step)
      (λ k l f p g e. ground (arith, g), λ n k l f g. ground (arith, g)) load_step

drawn-Of_example :
    (((draw_at screen log_panel at4).log.text ≡ "" ∷ [])
      ⊎ ((l : LogInfo) × Named at4.log.name l
          × ((draw_at screen log_panel at4).log.text ≡ map (log_line screen) l.records)))
    × ((k : ℕ) (l : Loop)
        → loop_at at4.loops k ≡ some l
        → l.cancelled ≡ false
        → (l.name ≡ at4.log.name) × (loop_at at4.loops (suc k) ≡ none))
drawn-Of_example = drawn-Of Named screen "host" at4 came
