-- ===== src/Server/Caching.antt =====
-- server/server.go: the tags and times of responses, sent back in a request.
use govisor.Common.{
  ℕ, ◌+◌, ◌*◌, ◌/◌, ◌≤◌, ◌<◌, ltb, String, true, false, ◌≡◌, ◌≢◌, ◌↔◌, refl, sym, ap, ◌∙◌, some,
  arith, Bool-cases, Sum-cases, inl, inr, str_eq, str_append, eq_iff,
}
use Prim.Native.String.append
use native.Mathlib.Nat.{mod-lt, div-add-mod'}
use govisor.World.{World, Env}
use govisor.Number.{parse_int, format_int, word}
use govisor.Number.RoundTrip.{parse_int-format_int}
use govisor.Server.Http.{
  blank, mime_json, not_modified, Request, Response, Web, Body, closed, unquote, quote, seconds,
  check_poll, second, unmodified, cond_check_get, respond, write_json, internal_error,
}
use govisor.Server.Get.{etag_of, list_services, get_manager, get_info}

closed-append : (s : String) → closed (str_append s "\"") ≡ some s
unfolding closed
closed-append String.[] = refl
closed-append (String.◌∷◌ c String.[]) = rw (append.cons c "" "\"") refl
closed-append (String.◌∷◌ c (String.◌∷◌ d s)) =
    let rest = closed-append (String.◌∷◌ d s) in
    rw (append.cons c (String.◌∷◌ d s) "\"", append.cons d s "\"")
      (rw (rw (append.cons d s "\"") at rest, closed) refl)

unquote-quote : (s : String) → unquote (quote s) ≡ some s
unfolding unquote quote
unquote-quote s =
    rw (append.cons "\"" "" s, append.nil s, append.cons "\"" s "\"", unquote) (closed-append s)

pub etag_of-some : (n : ℕ) → etag_of n ≢ ""
unfolding unquote
etag_of-some n e = ground (arith, sym (unquote-quote (format_int 16 n)) ∙ ap unquote e)

-- A tag stands for one number.
pub etag_of-injective : (m n : ℕ) → m < word → n < word → etag_of m ≡ etag_of n → m ≡ n
etag_of-injective m n a b e =
    let same =
      sym (unquote-quote (format_int 16 m)) ∙ ap unquote e ∙ unquote-quote (format_int 16 n) in
    let text : format_int 16 m ≡ format_int 16 n = ground (arith, same) in
    let number =
      sym (parse_int-format_int 16 (omega arith) (omega arith) m a)
      ∙ ap (parse_int 16) text
      ∙ parse_int-format_int 16 (omega arith) (omega arith) n b in
    ground (arith, number)

-- The tag of a serial number in the headers of a poll is read as that number.
pub check_poll-etag_of :
    (r : Request) (n : ℕ)
    → n < word
    → r.poll_etag ≡ etag_of n
    → check_poll r ≡ some (n, seconds r.poll_time)
unfolding check_poll
check_poll-etag_of r n h e =
    rw
      (
        e,
        check_poll,
        unquote-quote (format_int 16 n),
        parse_int-format_int 16 (omega arith) (omega arith) n h,
      )
      refl

write_json-status :
    (web : Web) (v : Body) (r : Response) → r.status ≡ 200 → (write_json web v r).status ≢ 304
unfolding write_json internal_error
write_json-status web v r h e = elim (Sum-cases (web.marshal v)) [
  | inl (x, f) ↦ ground (arith, rw (f, write_json) at e, h)
  | inr (x, f) ↦ ground (arith, rw (f, write_json) at e, h)
]

-- A response is left out just if the conditions of the request say so.
respond-status :
    (web : Web) (r : Request) (tag : String) (ts : ℕ) (shown : String) (v : Body)
    → ((respond web r tag ts shown v).status ≡ 304) ↔ (cond_check_get web r tag ts ≡ false)
unfolding respond
respond-status web r tag ts shown v = elim (Bool-cases (cond_check_get web r tag ts)) [
  | inl e ↦ (
    λ h. absurd (
        write_json-status web v (record blank { etag = tag; last_modified = shown }) refl
          (rw (e, respond) at h)),
    λ h. ground (arith, e, h),
  )
  | inr e ↦ (λ h. e, λ h. rw (e, respond) refl)
]

-- Whether the tag in a request lets the response through.
cond_check_get-tag :
    (web : Web) (r : Request) (tag : String) (ts : ℕ)
    → r.if_modified_since ≡ ""
    → (cond_check_get web r tag ts ≡ false) ↔ (r.if_none_match ≡ tag)
unfolding cond_check_get unmodified
cond_check_get-tag web r tag ts since = elim (Bool-cases (str_eq r.if_none_match tag)) [
  | inl e ↦ (λ h. (eq_iff r.if_none_match tag).0 e, λ h. rw (e, cond_check_get) refl)
  | inr e ↦ (
    λ h.
        absurd {A = r.if_none_match ≡ tag}
          (ground (arith, rw (e, since, cond_check_get, unmodified) at h)),
    λ h. ground (arith, e, eq_iff r.if_none_match tag, h),
  )
]

-- A response that is sent, and one that is left out.
pub respond-new :
    (web : Web) (r : Request) (tag : String) (ts : ℕ) (shown : String) (v : Body) (b : String)
    → r.if_modified_since ≡ ""
    → r.if_none_match ≢ tag
    → web.marshal v ≡ inr b
    → respond web r tag ts shown v
      ≡ record blank { content_type = mime_json; etag = tag; last_modified = shown; body = b }
unfolding respond write_json
respond-new web r tag ts shown v b since other whole =
    elim (Bool-cases (cond_check_get web r tag ts)) [
      | inl e ↦ rw (e, respond, whole, write_json) refl
      | inr e ↦ absurd (other ((cond_check_get-tag web r tag ts since).0 e))
    ]

pub respond-old :
    (web : Web) (r : Request) (tag : String) (ts : ℕ) (shown : String) (v : Body)
    → r.if_modified_since ≡ ""
    → r.if_none_match ≡ tag
    → respond web r tag ts shown v ≡ not_modified
unfolding respond
respond-old web r tag ts shown v since same =
    rw ((cond_check_get-tag web r tag ts since).1 same, respond) refl

respond-tag :
    (web : Web) (r : Request) (m n ts : ℕ) (shown : String) (v : Body)
    → m < word
    → n < word
    → r.if_none_match ≡ etag_of n
    → r.if_modified_since ≡ ""
    → ((respond web r (etag_of m) ts shown v).status ≡ 304) ↔ (m ≡ n)
respond-tag web r m n ts shown v a b tag since =
    let (out, back) = respond-status web r (etag_of m) ts shown v in
    let (left, right) = cond_check_get-tag web r (etag_of m) ts since in
    (
      λ h. etag_of-injective m n a b (sym (left (out h)) ∙ tag),
      λ h. back (right (tag ∙ ap etag_of (sym h))),
    )

-- For serial numbers below 2 ^ 64, a GET of the services, or of the Manager, that has the tag of
-- the number n in If-None-Match and no If-Modified-Since is answered with 304 just if the serial
-- number of the list, or of the Manager, is n.
pub list_services-get_manager :
    (env : Env) (web : Web) (r : Request) (w : World) (n : ℕ)
    → n < word
    → w.list_serial < word
    → w.mgr_serial < word
    → r.if_none_match ≡ etag_of n
    → r.if_modified_since ≡ ""
    → (((list_services env web r w).status ≡ 304) ↔ (w.list_serial ≡ n))
      × (((get_manager web r w).status ≡ 304) ↔ (w.mgr_serial ≡ n))
unfolding list_services get_manager get_info
list_services-get_manager env web r w n b l m tag since = (
  respond-tag web r w.list_serial n _ _ _ l b tag since,
  respond-tag web r w.mgr_serial n _ _ _ m b tag since,
)

within_second : (ts q : ℕ) → (ltb ts (q * second + second) ≡ true) ↔ (ts / second ≤ q)
within_second ts q =
    let whole = div-add-mod' ts second in
    let small = mod-lt ts {m = second} (omega arith) in
    (λ h. ground (arith, whole, small, h), λ h. ground (arith, whole, small, h))

-- If a time is read back from its text down to the second and the text is not empty, then for a
-- request whose If-Modified-Since is that text, and whose If-None-Match is not the tag,
-- condCheckGet leaves the response out just if the time stamp is in the second of that time or
-- an earlier one.
pub cond_check_get-since :
    (web : Web) (r : Request) (tag : String) (ts shown : ℕ)
    → (web.parse_time (web.format_utc shown) ≡ some (shown / second * second))
    → web.format_utc shown ≢ ""
    → r.if_none_match ≢ tag
    → r.if_modified_since ≡ web.format_utc shown
    → (cond_check_get web r tag ts ≡ false) ↔ (ts / second ≤ shown / second)
unfolding cond_check_get unmodified
cond_check_get-since web r tag ts shown law some_time fresh since =
    let other : str_eq r.if_none_match tag ≡ false =
      ground (arith, fresh, eq_iff r.if_none_match tag) in
    let given : str_eq (web.format_utc shown) "" ≡ false =
      ground (arith, some_time, eq_iff (web.format_utc shown) "") in
    let (early, late) = within_second ts (shown / second) in
    (
      λ h. early (ground (arith, rw (other, since, given, law, cond_check_get, unmodified) at h)),
      λ h. rw (other, since, given, law, late h, cond_check_get, unmodified) refl,
    )
