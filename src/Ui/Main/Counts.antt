-- ===== src/Ui/Main/Counts.antt =====
-- mpanel.go `update`: the counts and the colours, against the `Status` of util.go.
use govisor.Common.{
  ℕ, ◌+◌, ◌<◌, String, str_eq, none, List, [], ◌∷◌, if◌then◌else◌, length, ◌≡◌, refl, sym, ap,
  arith, Bool-cases, inl, inr,
}
use govisor.Server.Http.{ServiceInfo}
use govisor.Util.{status}
use govisor.Ui.Bar.{Style, normal, good, warn, bad}
use govisor.Ui.Events.{Item, Screen}
use govisor.Ui.Main.{MainPanel}
use govisor.Ui.Main.Load.{
  preserve, count, style_of, add_line, put_line, add_lines, reset, overall, tell, update,
}

-- The services that `Status` says this of.
pub with_status : String → List Item → ℕ
with_status n [] = 0
with_status n (i ∷ is) = (if str_eq (status i.info) n then 1 else 0) + with_status n is

-- The word of util.go for a colour.
abbrev word_of : Style → String
word_of normal = "disabled"
word_of bad = "failed"
word_of warn = "standby"
word_of good = "running"

status-style_of : (s : ServiceInfo) → status s ≡ word_of (style_of s)
unfolding status style_of
status-style_of s = elim (Bool-cases s.enabled) [
  | inr e ↦ rw (e, status, style_of) refl
  | inl e ↦ elim (Bool-cases s.failed) [
    | inl f ↦ rw (e, f, status, style_of) refl
    | inr f ↦ elim (Bool-cases s.running) [
      | inl g ↦ rw (e, f, g, status, style_of) refl
      | inr g ↦ rw (e, f, g, status, style_of) refl
    ]
  ]
]

-- What the counts are beyond those of `m`.
record Counted (m n : MainPanel) (off failed up down : ℕ) : Type 0 where
  all_off : n.ndisabled ≡ m.ndisabled + off
  all_failed : n.nfailed ≡ m.nfailed + failed
  all_up : n.nrunning ≡ m.nrunning + up
  all_down : n.nstopped ≡ m.nstopped + down

is_word : Style → String → ℕ
is_word st n = if str_eq (word_of st) n then 1 else 0

count-Counted :
    (st : Style) (m : MainPanel)
    → Counted m
        (count st m)
        (is_word st "disabled")
        (is_word st "failed")
        (is_word st "running")
        (is_word st "standby")
unfolding is_word
count-Counted normal m = record {
  all_off = refl;
  all_failed = omega arith;
  all_up = omega arith;
  all_down = omega arith;
}
count-Counted bad m = record {
  all_off = omega arith;
  all_failed = refl;
  all_up = omega arith;
  all_down = omega arith;
}
count-Counted warn m = record {
  all_off = omega arith;
  all_failed = omega arith;
  all_up = omega arith;
  all_down = refl;
}
count-Counted good m = record {
  all_off = omega arith;
  all_failed = omega arith;
  all_up = refl;
  all_down = omega arith;
}

is_word-status :
    (s : ServiceInfo) (n : String) → is_word (style_of s) n ≡ (if str_eq (status s) n then 1 else 0)
unfolding is_word
is_word-status s n = ap (λ w. if str_eq w n then 1 else 0) (sym (status-style_of s))

add_lines-Counted :
    (screen : Screen) (is : List Item) (m : MainPanel)
    → Counted m
        (add_lines screen is m)
        (with_status "disabled" is)
        (with_status "failed" is)
        (with_status "running" is)
        (with_status "standby" is)
unfolding add_lines add_line put_line with_status
add_lines-Counted screen [] m = record {
  all_off = omega arith;
  all_failed = omega arith;
  all_up = omega arith;
  all_down = omega arith;
}
add_lines-Counted screen (i ∷ is) m =
    let first = count-Counted (style_of i.info) (put_line screen i.info m) in
    let rest = add_lines-Counted screen is (add_line screen i.info m) in
    let w = is_word-status i.info in
    record {
      all_off = omega (arith, rest.all_off, first.all_off, w "disabled");
      all_failed = omega (arith, rest.all_failed, first.all_failed, w "failed");
      all_up = omega (arith, rest.all_up, first.all_up, w "running");
      all_down = omega (arith, rest.all_down, first.all_down, w "standby");
    }

length-with_status :
    (is : List Item)
    → with_status "disabled" is
        + with_status "failed" is
        + with_status "running" is
        + with_status "standby" is
      ≡ length is
unfolding with_status is_word
length-with_status [] = refl
length-with_status (i ∷ is) =
    let w = is_word-status i.info in
    omega (
      arith,
      length-with_status is,
      one (style_of i.info),
      w "disabled",
      w "failed",
      w "running",
      w "standby",
    )
  where
    one :
        (st : Style)
        → is_word st "disabled" + is_word st "failed" + is_word st "running" + is_word st "standby"
          ≡ 1
    one normal = refl
    one good = refl
    one warn = refl
    one bad = refl

overall_lem :
    (m : MainPanel)
    → (overall m ≡ bad → 0 < m.nfailed)
      × (0 < m.nfailed → overall m ≡ bad)
      × (overall m ≡ good → m.nfailed + m.nstopped ≡ 0)
unfolding overall
overall_lem m = (λ h. ground (arith, h), λ h. ground (arith, h), λ h. ground (arith, h))

-- After a load that succeeds, the main panel counts as disabled, faulted, running and on standby
-- just the services for which Status of util.go says so, these counts add up to the number of
-- services, the status bar is in the style of an error just if a service is failed, and in the
-- good style only if all services run or are disabled.
pub update-counts :
    (screen : Screen) (is : List Item) (m : MainPanel)
    → let n = (update screen is none m).0 in
      (n.ndisabled ≡ with_status "disabled" is)
      × (n.nfailed ≡ with_status "failed" is)
      × (n.nrunning ≡ with_status "running" is)
      × (n.nstopped ≡ with_status "standby" is)
      × (n.ndisabled + n.nfailed + n.nrunning + n.nstopped ≡ length is)
      × (n.panel.style ≡ bad → 0 < with_status "failed" is)
      × (0 < with_status "failed" is → n.panel.style ≡ bad)
      × (n.panel.style ≡ good → n.nrunning + n.ndisabled ≡ length is)
unfolding update tell overall
update-counts screen is m =
    let n = preserve m.selected (record m { items = is }) in
    let c = add_lines-Counted screen is (reset n) in
    let l = length-with_status is in
    let z = add_lines screen is (reset n) in
    let off : z.ndisabled ≡ with_status "disabled" is = omega (arith, c.all_off) in
    let failed : z.nfailed ≡ with_status "failed" is = omega (arith, c.all_failed) in
    let up : z.nrunning ≡ with_status "running" is = omega (arith, c.all_up) in
    let down : z.nstopped ≡ with_status "standby" is = omega (arith, c.all_down) in
    let (f, g, h) = overall_lem z in
    (
      off,
      failed,
      up,
      down,
      omega (arith, off, failed, up, down, l),
      λ e. omega (arith, f e, failed),
      λ e. g (omega (arith, e, failed)),
      λ e. omega (arith, h e, off, failed, up, down, l),
    )
