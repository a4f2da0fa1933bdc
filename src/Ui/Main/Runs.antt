-- ===== src/Ui/Main/Runs.antt =====
-- mpanel.go: sequences of calls of the main panel, and loads that fail.
use Prim.Native.Char.{Char}
use govisor.Common.{
  if◌then◌else◌, ℕ, ◌<◌, ltb, String, true, false, Option, none, some, List, [], ◌∷◌, length,
  get_elem?, ◌≡◌, ◌≢◌, refl, ap, arith, get_elem?-some, Bool-cases, Option-cases, inl, inr,
}
use govisor.World.{ℤ, pos}
use govisor.Client.Http.{Failure}
use govisor.Ui.Events.{
  Key, esc, f1, enter, rune, tab, backtab, ctrl_u, ctrl_w, ctrl_c, ctrl_l, backspace, backspace2,
  other, letter, quit, show_help, show_info, Handled, done, passed, refused, Item, Screen, add,
}
use govisor.Ui.Keeps.{Keeps, acted, went_on, Keeps-if, service_rune-Keeps}
use govisor.Ui.Main.{
  MainPanel, Cell, update_cursor, move_cursor, new_main_panel, selected_rune, set_cursor, unselect,
  cell_of, get_cell, handle_event,
}
use govisor.Ui.Main.Load.{update, preserve, find_from, is_denied}
use govisor.Ui.Main.Fits.{new_main_panel-Fits, Fits, Safe, safe, update_cursor-Safe, get_cell-some}
use govisor.Ui.Main.Loads.{update-Fits}

-- What happens to the panel: it is drawn after a load that succeeded, the cursor is moved, a cell is
-- asked for, or a key is pressed.
pub data Event : Type 0 where
  loaded : List Item → Event
  moved : ℤ → ℤ → Event
  put : ℤ → ℤ → Event
  looked : ℤ → ℤ → Event
  pressed : Key → Event

abbrev after_key : MainPanel → Option (Handled MainPanel) → Option MainPanel
after_key m none = none
after_key m (some (done n acts)) = some n
after_key m (some passed) = some m
after_key m (some refused) = some m

abbrev after_look : MainPanel → Option Cell → Option MainPanel
after_look m none = none
after_look m (some c) = some m

selected_rune-Keeps : (o : Option Item) (c : Char) (m : MainPanel) → Keeps m (selected_rune o c m)
unfolding selected_rune
selected_rune-Keeps none c m = Keeps-if (letter b'L' b'l' c) acted went_on
selected_rune-Keeps (some i) c m =
    Keeps-if (letter b'I' b'i' c) acted
      (Keeps-if (letter b'L' b'l' c) acted (service_rune-Keeps c i.info m))

rune-Keeps :
    (c : Char) (m : MainPanel)
    → Keeps m (
        if letter b'Q' b'q' c
        then done m (quit ∷ [])
        else if letter b'H' b'h' c
        then done m (show_help ∷ [])
        else selected_rune m.selected c m)
rune-Keeps c m =
    Keeps-if (letter b'Q' b'q' c) acted
      (Keeps-if (letter b'H' b'h' c) acted (selected_rune-Keeps m.selected c m))

enter-Keeps :
    (m : MainPanel) (o : Option Item)
    → Keeps m (elim o [ none ↦ passed | some i ↦ done m (show_info i.info.name ∷ []) ])
enter-Keeps m none = went_on
enter-Keeps m (some i) = acted

Keeps-Safe :
    (m : MainPanel) (h : Handled MainPanel) → Fits m → Keeps m h → Safe (after_key m (some h))
Keeps-Safe m _ f acted = safe f
Keeps-Safe m _ f went_on = safe f

module _ (screen : Screen) where
  -- There is none where the program ends.
  unfoldable pub step : Event → MainPanel → Option MainPanel
  unfolding update move_cursor set_cursor get_cell handle_event
  step (loaded is) m = some (update screen is none m).0
  step (moved x y) m = move_cursor x y m
  step (put x y) m = set_cursor x y m
  step (looked x y) m = after_look m (get_cell screen x y m)
  step (pressed k) m = after_key m (handle_event k m)

  unfoldable pub run : List Event → MainPanel → Option MainPanel
  unfolding step
  run [] m = some m
  run (e ∷ es) m = elim (step e m) [ none ↦ none | some n ↦ run es n ]

  after_look-Safe : (m : MainPanel) (o : Option Cell) → Fits m → o ≢ none → Safe (after_look m o)
  after_look-Safe m none f h = absurd (h refl)
  after_look-Safe m (some c) f h = safe f

  after_key-esc :
      (m : MainPanel) (o : Option MainPanel)
      → Safe o
      → Safe (after_key m (elim o [ none ↦ none | some n ↦ some (done n []) ]))
  after_key-esc m _ (safe f) = safe f

  step-Safe : (e : Event) (m : MainPanel) → Fits m → Safe (step e m)
  unfolding step move_cursor set_cursor handle_event unselect
  step-Safe (loaded is) m f = safe (update-Fits screen is m)
  step-Safe (moved x y) m f =
      update_cursor-Safe true (record m { curx = add m.curx x; cury = add m.cury y }) f.sized
  step-Safe (put x y) m f = update_cursor-Safe true (record m { curx = x; cury = y }) f.sized
  step-Safe (looked x y) m f = after_look-Safe m _ f (get_cell-some screen x y m f.sized)
  step-Safe (pressed esc) m f =
      after_key-esc m _ (update_cursor-Safe false (record m { curx = pos 0; cury = pos 0 }) f.sized)
  step-Safe (pressed f1) m f = safe f
  step-Safe (pressed enter) m f = Keeps-Safe m _ f (enter-Keeps m m.selected)
  step-Safe (pressed (rune c)) m f = Keeps-Safe m _ f (rune-Keeps c m)
  step-Safe (pressed tab) m f = safe f
  step-Safe (pressed backtab) m f = safe f
  step-Safe (pressed ctrl_u) m f = safe f
  step-Safe (pressed ctrl_w) m f = safe f
  step-Safe (pressed ctrl_c) m f = safe f
  step-Safe (pressed ctrl_l) m f = safe f
  step-Safe (pressed backspace) m f = safe f
  step-Safe (pressed backspace2) m f = safe f
  step-Safe (pressed other) m f = safe f

  run-Safe : (es : List Event) (m : MainPanel) → Fits m → Safe (run es m)
  unfolding run
  run-Safe [] m f = safe f
  run-Safe (e ∷ es) m f = on (step e m) (step-Safe e m f) (run-Safe es)
    where
      on :
          (o : Option MainPanel)
          → Safe o
          → ((n : MainPanel) → Fits n → Safe (run es n))
          → Safe (elim o [ none ↦ none | some n ↦ run es n ])
      on _ (safe g) more = more _ g

  -- Whatever loads that succeed, moves of the cursor, cells that are asked for and keys come, in
  -- any order, no index of the main panel is out of range: there is a panel in the end, with a
  -- line and a style for each service, and the service that is selected, if there is one, is the
  -- one at the cursor.
  pub run-Fits :
      (server : String) (es : List Event)
      → (m : MainPanel) × (run es (new_main_panel server) ≡ some m) × Fits m
  run-Fits server es =
      of (run es (new_main_panel server)) (run-Safe es _ (new_main_panel-Fits server))
    where
      of : (o : Option MainPanel) → Safe o → (m : MainPanel) × (o ≡ some m) × Fits m
      of _ (safe f) = (_, refl, f)

-- A load that fails leaves a panel with services without them, and with its height.
preserve-nothing :
    (o : Option Item) (m : MainPanel)
    → m.selected ≡ o
    → preserve o (record m { items = [] }) ≡ record m { selected = none; items = [] }
unfolding preserve find_from
preserve-nothing none m e = ap (λ o. record m { selected = o; items = [] }) e
preserve-nothing (some s) m e = refl

-- The cursor of a panel that says it has a height, and has no services.
update_cursor-none :
    (m : MainPanel) → 0 < m.height → m.selected ≡ none → m.items ≡ [] → update_cursor true m ≡ none
unfolding update_cursor
update_cursor-none m h e f =
    let tall : ltb 0 m.height ≡ true = ground (arith, h) in rw (tall, e, f) refl

get_cell-none :
    (screen : Screen) (z : ℤ) (k : ℕ) (m : MainPanel)
    → k < length m.lines
    → m.items ≡ []
    → get_cell screen z (pos k) m ≡ none
unfolding get_cell cell_of
get_cell-none screen z k m h e =
    let (l, f) = get_elem?-some m.lines k h in
    elim (Option-cases (get_elem? m.styles k)) [
      | inl g ↦ rw (f, get_cell, g, cell_of) refl
      | inr (st, g) ↦ rw (f, get_cell, g, cell_of, e) refl
    ]

-- If the main panel fits and has services, then after a load that fails any move of the cursor
-- indexes the services out of range, which ends the program; and so does the drawing of any of
-- its lines if the load was refused with 401, since the lines are left then.
pub load-panics :
    (screen : Screen) (e : Failure) (m : MainPanel) (x y z : ℤ) (k : ℕ)
    → Fits m
    → k < length m.items
    → (move_cursor x y (update screen [] (some e) m).0 ≡ none)
      × (is_denied e ≡ true → get_cell screen z (pos k) (update screen [] (some e) m).0 ≡ none)
unfolding update move_cursor
load-panics screen e m x y z k f h = elim (Bool-cases (is_denied e)) [
  | inl denied ↦
      rw (denied, preserve-nothing m.selected m refl)
        (
          update_cursor-none _ (omega (arith, h, f.sized.height_fits)) refl refl,
          λ g. get_cell-none screen z k _ (omega (arith, h, f.sized.lines_fit)) refl,
        )
  | inr served ↦
      rw (served, preserve-nothing m.selected m refl)
        (
          update_cursor-none _ (omega (arith, h, f.sized.height_fits)) refl refl,
          λ g. ground (arith, g),
        )
]
