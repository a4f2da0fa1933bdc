-- ===== src/Ui/Offered.antt =====
-- mpanel.go, ipanel.go, lpanel.go: the keys that the key bar names, and what they do.
use Prim.Native.Char.{code}
use govisor.Common.{
  ◌==◌, String, str_eq, true, false, Option, none, some, List, [], ◌∷◌, if◌then◌else◌, ◌≡◌, refl,
  Bool-cases, inl, inr, ◌⊎◌,
}
use govisor.Client.Http.{Failure}
use govisor.Server.Http.{ServiceInfo}
use govisor.Ui.Bar.{mark_words, set_keys, set_title}
use govisor.Ui.Events.{
  item_of, fault_of, Key, esc, other, rune, Act, show_main, show_help, show_info, show_log, quit,
  enable, disable, clear, restart, Item, Fault, LogInfo, Screen, done, when, service_rune,
  service_words,
}
use govisor.Ui.Main as Main
use govisor.Ui.Main.{MainPanel}
use govisor.Ui.Main.Load as Load
use govisor.Ui.Info as Info
use govisor.Ui.Info.{InfoPanel}
use govisor.Ui.Info.Fresh.{Shown}
use govisor.Ui.LogView as LogView
use govisor.Ui.LogView.{LogPanel}

-- The key that a word of the key bar names, as in `[Q] Quit`.
pub key_of : String → Key
key_of (String.◌∷◌ b (String.◌∷◌ c (String.◌∷◌ d s))) = if code d == b']' then rune c else esc
key_of s = other

-- What a word promises, for a service of this name; other texts are not words of the key bar.
pub meaning : String → String → Option Act
meaning n w =
    if str_eq w "[ESC] Main"
    then some show_main
    else if str_eq w "[H] Help"
    then some show_help
    else if str_eq w "[I] Info"
    then some (show_info n)
    else if str_eq w "[L] Log"
    then some (show_log n)
    else if str_eq w "[E] Enable"
    then some (enable n)
    else if str_eq w "[D] Disable"
    then some (disable n)
    else if str_eq w "[C] Clear"
    then some (clear n)
    else if str_eq w "[R] Restart"
    then some (restart n)
    else if str_eq w "[Q] Quit"
    then some quit
    else none

-- The name of the service, or that of the log of all.
abbrev pub name_of : Option Item → String
name_of none = ""
name_of (some i) = i.info.name

pub data Each (P : String → Type 0) : List String → Type 0 where
  nothing : Each P []
  also : {w : String} {ws : List String} → P w → Each P ws → Each P (w ∷ ws)

service_words-Each :
    (P : String → Type 0) (s : ServiceInfo)
    → (s.enabled ≡ false → P "[E] Enable")
    → (s.enabled ≡ true → P "[D] Disable")
    → (s.failed ≡ true → P "[C] Clear")
    → P "[R] Restart"
    → Each P (service_words s)
unfolding service_words
service_words-Each P s e d c r = elim (Bool-cases s.enabled) [
  | inr off ↦ rw (off, service_words) (also (e off) nothing)
  | inl on ↦ elim (Bool-cases s.failed) [
    | inr fine ↦ rw (on, fine, service_words) (also (d on) (also r nothing))
    | inl bad ↦ rw (on, bad, service_words) (also (d on) (also (c bad) (also r nothing)))
  ]
]

-- A word does in the main panel what it says.
pub MainDoes : Option Item → MainPanel → String → Type 0
MainDoes o m w =
    (a : Act) × (meaning (name_of o) w ≡ some a)
    × (Main.handle_event (key_of w) m ≡ some (done m (a ∷ [])))

main_words-Each :
    (o : Option Item) (m : MainPanel) → Each (MainDoes o (record m { selected = o })) (Load.words o)
unfolding Load.words MainDoes key_of meaning Main.handle_event Main.selected_rune service_rune
main_words-Each none m = also (_, refl, refl) (also (_, refl, refl) (also (_, refl, refl) nothing))
main_words-Each (some i) m =
    also (_, refl, refl)
      (also (_, refl, refl)
        (also (_, refl, refl)
          (also (_, refl, refl)
            (service_words-Each (MainDoes (some i) (record m { selected = some i })) i.info
              (λ e. (_, refl, rw (e, when) refl)) (λ e. (_, refl, rw (e, when) refl))
              (λ e. (_, refl, rw (e, when) refl)) (_, refl, refl)))))

-- A word does in the panel of a service, or of a log, what it says.
pub InfoDoes : Option Item → InfoPanel → String → Type 0
InfoDoes o i w =
    (a : Act) × (meaning (name_of o) w ≡ some a)
    × (Info.handle_event (key_of w) i ≡ done i (a ∷ []))

pub LogDoes : Option Item → LogPanel → String → Type 0
LogDoes o p w =
    (a : Act) × (meaning (name_of o) w ≡ some a)
    × (LogView.handle_event (key_of w) p ≡ done p (a ∷ []))

info_words-Each :
    (o : Option Item) (i : InfoPanel) → Each (InfoDoes o (record i { info = o })) (Info.words o)
unfolding Info.words InfoDoes key_of meaning Info.handle_event Info.info_rune service_rune
info_words-Each none i = also (_, refl, refl) (also (_, refl, refl) nothing)
info_words-Each (some s) i =
    also (_, refl, refl)
      (also (_, refl, refl)
        (also (_, refl, refl)
          (service_words-Each (InfoDoes (some s) (record i { info = some s })) s.info
            (λ e. (_, refl, rw (e, when) refl)) (λ e. (_, refl, rw (e, when) refl))
            (λ e. (_, refl, rw (e, when) refl)) (_, refl, refl))))

log_words-Each :
    (o : Option Item) (p : LogPanel) → Each (LogDoes o (record p { info = o })) (LogView.words o)
unfolding LogView.words LogDoes key_of meaning LogView.handle_event LogView.log_rune service_rune
log_words-Each none p = also (_, refl, refl) (also (_, refl, refl) nothing)
log_words-Each (some s) p =
    also (_, refl, refl)
      (also (_, refl, refl)
        (also (_, refl, refl)
          (service_words-Each (LogDoes (some s) (record p { info = some s })) s.info
            (λ e. (_, refl, rw (e, when) refl)) (λ e. (_, refl, rw (e, when) refl))
            (λ e. (_, refl, rw (e, when) refl)) (_, refl, refl))))

log_words-none :
    (o : Option Item) (p : LogPanel) → Each (LogDoes o (record p { info = o })) (LogView.words none)
unfolding LogView.words LogDoes key_of meaning LogView.handle_event
log_words-none o p = also (_, refl, refl) (also (_, refl, refl) nothing)

-- The key bar, and what its words do.
pub Offers : (String → Type 0) → String → Type 0
Offers does bar = (ws : List String) × (bar ≡ mark_words ws) × Each does ws

main-Offers :
    (screen : Screen) (is : List Item) (m : MainPanel)
    → let n = (Load.update screen is none m).0 in Offers (MainDoes n.selected n) n.panel.keys
unfolding Load.update Load.tell set_keys Offers
main-Offers screen is m =
    let n = (Load.update screen is none m).0 in
    (Load.words n.selected, refl, main_words-Each n.selected n)

redraw-Offers :
    (screen : Screen) (l : Option LogInfo) (s : String) (p : LogPanel)
    → let q = LogView.redraw screen l s p in Offers (LogDoes q.info q) q.panel.keys
unfolding LogView.redraw set_keys Offers
redraw-Offers screen none s p =
    let q = LogView.redraw screen none s p in (LogView.words none, refl, log_words-none q.info q)
redraw-Offers screen (some l) s p =
    let q = LogView.redraw screen (some l) s p in
    (LogView.words p.info, refl, log_words-Each q.info q)

-- The key bar shows only words that name what a key does, and each of them, in the main panel
-- after a load that succeeded, in the log panel after any update, and in the panel of a service
-- that shows what goes with it, does what it says when its key is pressed: it shows the panel
-- that it names, or quits, or has the service enabled, disabled, cleared or restarted that the
-- panel has.
pub keys-Offers :
    (screen : Screen) (is : List Item) (m : MainPanel) (i : InfoPanel)
    → Shown screen i
    → (r : Fault ⊎ Item) (l : Option LogInfo × Option Failure) (p : LogPanel)
    → let n = (Load.update screen is none m).0 in
      let q = LogView.update screen r l p in
      Offers (MainDoes n.selected n) n.panel.keys
      × Offers (InfoDoes i.info i) i.panel.keys
      × Offers (LogDoes q.info q) q.panel.keys
unfolding LogView.update Offers
keys-Offers screen is m i h r (l, e) p = (
  main-Offers screen is m,
  (Info.words i.info, h.same_keys, info_words-Each i.info i),
  redraw-Offers screen (if LogView.is_missing (item_of r) p.name then none else l)
      (LogView.told e (fault_of r))
      (record p { info = item_of r; panel = set_title (LogView.title_of p.name) p.panel }),
)
