-- ===== src/Ui/Auth/Login.antt =====
-- apanel.go: a login from the keys to `SetUserPassword`.
use Prim.Native.Char.{Char}
use mathlib.Core.List.{append_assoc, append-nil}
use govisor.Common.{
  ◌+◌, ◌≤◌, ◌<◌, ltb, Bool, true, false, List, [], ◌∷◌, ◌++◌, map, length, ◌≡◌, refl, ap, ◌∙◌,
  arith, length-append,
}
use govisor.Ui.Events.{Key, enter, tab, rune, show_main, login}
use govisor.Ui.Auth.{AuthPanel, limit, reset_fields, to_string, append_rune, handle_event}
use govisor.Ui.Auth.Typing.{keys}

-- A panel with this input.
abbrev filled : Bool → List Char → List Char → AuthPanel → AuthPanel
filled b u p a = record a { passactive = b; username = u; password = p }

append_rune_fits : (c : Char) (cs : List Char) → length cs < limit → append_rune c cs ≡ cs ++ c ∷ []
unfolding append_rune
append_rune_fits c cs h =
    let short : ltb (length cs) limit ≡ true = ground (arith, h) in rw short refl

keys-user :
    (cs u : List Char) (ks : List Key) (a : AuthPanel)
    → length u + length cs ≤ limit
    → keys (map rune cs ++ ks) (filled false u [] a) ≡ keys ks (filled false (u ++ cs) [] a)
unfolding keys handle_event
keys-user [] u ks a h = rw (append-nil u) refl
keys-user (c ∷ cs) u ks a h =
    rw
      (
        append_rune_fits c u (omega (arith, h)),
        keys-user cs (u ++ c ∷ []) ks a (omega (arith, h, length-append u (c ∷ []))),
        append_assoc u (c ∷ []) cs,
      )
      refl

keys-password :
    (cs u p : List Char) (ks : List Key) (a : AuthPanel)
    → length p + length cs ≤ limit
    → keys (map rune cs ++ ks) (filled true u p a) ≡ keys ks (filled true u (p ++ cs) a)
unfolding keys handle_event
keys-password [] u p ks a h = rw (append-nil p) refl
keys-password (c ∷ cs) u p ks a h =
    rw
      (
        append_rune_fits c p (omega (arith, h)),
        keys-password cs u (p ++ c ∷ []) ks a (omega (arith, h, length-append p (c ∷ []))),
        append_assoc p (c ∷ []) cs,
      )
      refl

keys-tab :
    (u : List Char) (ks : List Key) (a : AuthPanel)
    → (keys (tab ∷ ks) (filled false u [] a)).1 ≡ (keys ks (filled true u [] a)).1
unfolding keys handle_event
keys-tab u ks a = refl

keys-enter :
    (u p : List Char) (a : AuthPanel)
    → (keys (enter ∷ []) (filled true u p a)).1 ≡ login (to_string u) (to_string p) ∷ show_main ∷ []
unfolding keys handle_event
keys-enter u p a = refl

-- A user and a password of up to 256 runes that are typed, with a tab between them and enter
-- behind them, once the fields are reset, are what SetUserPassword is called with, and then the
-- main panel is shown.
pub keys-login :
    (a : AuthPanel) (u p : List Char)
    → length u ≤ limit
    → length p ≤ limit
    → (keys (map rune u ++ tab ∷ (map rune p ++ enter ∷ [])) (reset_fields a)).1
      ≡ login (to_string u) (to_string p) ∷ show_main ∷ []
unfolding reset_fields
keys-login a u p h k = rw (keys-user u [] (tab ∷ (map rune p ++ enter ∷ [])) a (omega (arith, h))) (
    keys-tab u (map rune p ++ enter ∷ []) a
    ∙ ap (λ x. x.1) (keys-password p u [] (enter ∷ []) a (omega (arith, k)))
    ∙ keys-enter u p a)
