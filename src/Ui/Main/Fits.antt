-- ===== src/Ui/Main/Fits.antt =====
-- mpanel.go: the lines, styles and services of the main panel, and its cursor.
use govisor.Common.{
  ℕ, ◌<◌, ltb, String, Bool, ◌&&◌, Option, none, some, List, length, get_elem?, ◌≡◌, ◌≢◌, refl,
  arith, get_elem?-some, get_elem?-lt, Bool-cases, Option-cases, inl, inr,
}
use govisor.World.{ℤ, pos, negsuc}
use govisor.Ui.Bar.{Style}
use govisor.Ui.Events.{Item, Screen}
use govisor.Ui.Main.{MainPanel, new_main_panel, clamp, place, update_cursor, cell_of, get_cell}

-- The selected service, if there is one, stands at the cursor.
pub data Stands (items : List Item) : Option Item → ℤ → Type 0 where
  nowhere : {z : ℤ} → Stands items none z
  at_cursor : {i : Item} {y : ℕ} → get_elem? items y ≡ some i → Stands items (some i) (pos y)

-- There is a line and a style for each service, and as many as the height says.
pub record Sized (lines : List String) (styles : List Style) (height : ℕ) (items : List Item)
    : Type 0 where
  pub lines_fit : length lines ≡ length items
  pub styles_fit : length styles ≡ length items
  pub height_fits : height ≡ length items

abbrev pub MainSized : MainPanel → Type 0
MainSized m = Sized m.lines m.styles m.height m.items

pub record Fits (m : MainPanel) : Type 0 where
  pub sized : MainSized m
  pub standing : Stands m.items m.selected m.cury

-- There is a panel, and it fits.
pub data Safe : Option MainPanel → Type 0 where
  safe : {m : MainPanel} → Fits m → Safe (some m)

pub new_main_panel-Fits : (server : String) → Fits (new_main_panel server)
unfolding new_main_panel
new_main_panel-Fits server = record {
  sized = record { lines_fit = refl; styles_fit = refl; height_fits = refl };
  standing = nowhere;
}

clamp-lt : (n : ℕ) (z : ℤ) → 0 < n → clamp n z < n
clamp-lt n (pos k) h = ground (arith, h)
clamp-lt n (negsuc k) h = h

-- A cursor that is put on a service.
place-Safe :
    (o : Option Item) (x y : ℕ) (m : MainPanel)
    → MainSized m
    → y < length m.items
    → Safe (place o m.items x y m)
place-Safe none x y m f k =
    let (i, e) = get_elem?-some m.items 0 (omega (arith, k)) in
    rw (e, place) (safe (record { sized = f; standing = at_cursor e }))
place-Safe (some s) x y m f k =
    let (i, e) = get_elem?-some m.items y k in
    rw (e, place) (safe (record { sized = f; standing = at_cursor e }))

-- The cursor may be anywhere.
pub update_cursor-Safe : (b : Bool) (m : MainPanel) → MainSized m → Safe (update_cursor b m)
unfolding update_cursor
update_cursor-Safe b m f = elim (Bool-cases (b && ltb 0 m.height)) [
  | inl e ↦
      let some_item : 0 < m.height = ground (arith, e) in
      let low = clamp-lt m.height m.cury some_item in
      rw e (
        place-Safe m.selected (clamp m.width m.curx) (clamp m.height m.cury) m f
          (omega (arith, f.height_fits, low)))
  | inr e ↦ rw e (safe (record { sized = f; standing = nowhere }))
]

-- A cell never lies out of range.
pub get_cell-some :
    (screen : Screen) (x y : ℤ) (m : MainPanel) → MainSized m → get_cell screen x y m ≢ none
unfolding get_cell cell_of
get_cell-some screen x (negsuc y) m f = λ h. ground (arith, h)
get_cell-some screen x (pos y) m f = elim (Option-cases (get_elem? m.lines y)) [
  | inl e ↦ rw (e, get_cell) (λ h. ground (arith, h))
  | inr (l, e) ↦
      let low = get_elem?-lt m.lines y l e in
      let (st, e') = get_elem?-some m.styles y (omega (arith, f.lines_fit, f.styles_fit, low)) in
      let (i, e'') = get_elem?-some m.items y (omega (arith, f.lines_fit, low)) in
      rw (e, get_cell, e', cell_of, e'') (λ h. ground (arith, h))
]
