-- ===== src/Ui/Auth/Typing.antt =====
-- apanel.go: what is typed, what is shown of it, and what is sent.
use Prim.Native.Char.{Char}
use govisor.Common.{
  ℕ, zero, suc, ◌-◌, ◌≤◌, ◌<◌, ltb, String, Bool, true, false, not, List, [], ◌∷◌, ◌++◌, map,
  length, drop, replicate, ◌≡◌, refl, ap, arith, length-append, length-set, length-replicate,
  Bool-cases, inl, inr,
}
use govisor.Ui.Events.{
  Key, esc, f1, enter, tab, backtab, ctrl_u, ctrl_w, ctrl_c, ctrl_l, backspace, backspace2, other,
  rune, Act, Handled, done, passed, refused,
}
use govisor.Ui.Auth.{
  AuthPanel, maxlen, limit, new_auth_panel, remove_last, append_rune, edit, next, handle_event, cut,
  fill, cursor, update,
}

length-drop {ℓ} : {A : Type ℓ} (n : ℕ) (xs : List A) → length (drop n xs) ≡ length xs - n
length-drop zero xs = omega arith
length-drop (suc n) [] = omega arith
length-drop (suc n) (x ∷ xs) = omega (arith, length-drop n xs)

length-cut : (cs : List Char) → length (cut cs) ≤ maxlen
unfolding cut
length-cut cs = elim (Bool-cases (ltb maxlen (length cs))) [
  | inl e ↦
      let tail = drop (length cs - maxlen) cs in
      let long : maxlen < length cs = ground (arith, e) in
      rw e (omega (arith, long, length-set tail 0 "<", length-drop (length cs - maxlen) cs))
  | inr e ↦ rw e (ground (arith, e))
]

length-fill : (cs : List Char) → length (fill cs) ≡ maxlen
unfolding fill
length-fill cs =
    let more = maxlen - length (cut cs) in
    omega (
      arith,
      length-cut cs,
      length-append (cut cs) (replicate more " "),
      length-replicate {A = Char} more " ",
    )

length-remove_last : (cs : List Char) → length (remove_last cs) ≤ length cs
unfolding remove_last
length-remove_last [] = omega arith
length-remove_last (c ∷ []) = omega arith
length-remove_last (c ∷ d ∷ cs) = omega (arith, length-remove_last (d ∷ cs))

length-append_rune :
    (c : Char) (cs : List Char) → length cs ≤ limit → length (append_rune c cs) ≤ limit
unfolding append_rune
length-append_rune c cs h = elim (Bool-cases (ltb (length cs) limit)) [
  | inl e ↦ rw e (ground (arith, e, length-append cs (c ∷ [])))
  | inr e ↦ rw e h
]

-- The keys, one after the other; those that the panel does not handle leave it as it is.
abbrev pub after : AuthPanel → Handled AuthPanel → AuthPanel × List Act
after a (done b acts) = (b, acts)
after a passed = (a, [])
after a refused = (a, [])

unfoldable pub keys : List Key → AuthPanel → AuthPanel × List Act
unfolding handle_event
keys [] a = (a, [])
keys (k ∷ ks) a =
    let (b, acts) = after a (handle_event k a) in let (c, more) = keys ks b in (c, acts ++ more)

record Bounded (a : AuthPanel) : Type 0 where
  user_bound : length a.username ≤ limit
  pass_bound : length a.password ≤ limit

edit-Bounded :
    (f : List Char → List Char) (a : AuthPanel)
    → ((cs : List Char) → length cs ≤ limit → length (f cs) ≤ limit)
    → Bounded a
    → Bounded (edit f a)
edit-Bounded f a h b = elim (Bool-cases a.passactive) [
  | inl e ↦
      rw (e, edit) (record { user_bound = b.user_bound; pass_bound = h a.password b.pass_bound })
  | inr e ↦
      rw (e, edit) (record { user_bound = h a.username b.user_bound; pass_bound = b.pass_bound })
]

next-Bounded : (b : Bool) (a : AuthPanel) → Bounded a → Bounded (after a (next b a)).0
next-Bounded true a h = h
next-Bounded false a h = record { user_bound = h.user_bound; pass_bound = h.pass_bound }

key-Bounded : (k : Key) (a : AuthPanel) → Bounded a → Bounded (after a (handle_event k a)).0
unfolding handle_event
key-Bounded esc a h = h
key-Bounded tab a h = next-Bounded a.passactive a h
key-Bounded enter a h = next-Bounded a.passactive a h
key-Bounded backtab a h = record { user_bound = h.user_bound; pass_bound = h.pass_bound }
key-Bounded ctrl_u a h = edit-Bounded (λ cs. []) a (λ cs g. omega arith) h
key-Bounded ctrl_w a h = edit-Bounded (λ cs. []) a (λ cs g. omega arith) h
key-Bounded backspace a h =
    edit-Bounded remove_last a (λ cs g. omega (arith, g, length-remove_last cs)) h
key-Bounded backspace2 a h =
    edit-Bounded remove_last a (λ cs g. omega (arith, g, length-remove_last cs)) h
key-Bounded (rune c) a h = edit-Bounded (append_rune c) a (length-append_rune c) h
key-Bounded f1 a h = h
key-Bounded ctrl_c a h = h
key-Bounded ctrl_l a h = h
key-Bounded other a h = h

keys-Bounded : (ks : List Key) (a : AuthPanel) → Bounded a → Bounded (keys ks a).0
unfolding keys
keys-Bounded [] a h = h
keys-Bounded (k ∷ ks) a h = keys-Bounded ks _ (key-Bounded k a h)

map-stars :
    (cs ds : List Char) → length cs ≡ length ds → map (λ c. "*") cs ≡ map {B = Char} (λ c. "*") ds
map-stars [] [] h = refl
map-stars [] (d ∷ ds) h = absurd (omega (arith, h))
map-stars (c ∷ cs) [] h = absurd (omega (arith, h))
map-stars (c ∷ cs) (d ∷ ds) h = ap (λ l. "*" ∷ l) (map-stars cs ds (omega (arith, h)))

pfield-update :
    (a : AuthPanel) (p : List Char)
    → length p ≡ length a.password
    → (update (record a { password = p })).pfield ≡ (update a).pfield
unfolding update
pfield-update a p h = ap (λ l. fill (cursor a.passactive l)) (map-stars p a.password h)

length-ufield : (a : AuthPanel) → length (update a).ufield ≡ maxlen
unfolding update
length-ufield a = length-fill (cursor (not a.passactive) a.username)

length-pfield : (a : AuthPanel) → length (update a).pfield ≡ maxlen
unfolding update
length-pfield a = length-fill (cursor a.passactive (map (λ c. "*") a.password))

-- Whatever keys are pressed in the login panel, the user and the password stay within 256 runes,
-- both fields are shown with 16 runes, and what is shown of the password depends on its length
-- and on the field that is active only.
pub keys-shown :
    (server : String) (ks : List Key)
    → let a = (keys ks (new_auth_panel server)).0 in
      (length a.username ≤ limit)
      × (length a.password ≤ limit)
      × (length (update a).ufield ≡ maxlen)
      × (length (update a).pfield ≡ maxlen)
      × ((p : List Char)
          → length p ≡ length a.password
          → (update (record a { password = p })).pfield ≡ (update a).pfield)
unfolding new_auth_panel
keys-shown server ks =
    let a = (keys ks (new_auth_panel server)).0 in
    let b =
      keys-Bounded ks (new_auth_panel server)
        (record { user_bound = omega arith; pass_bound = omega arith }) in
    (b.user_bound, b.pass_bound, length-ufield a, length-pfield a, pfield-update a)
