-- ===== src/Client/Service.antt =====
-- rest/client.go `pollService`, as one call, against server/server.go `getService`.
use govisor.Common.{
  ℕ, ◌<◌, ◌*◌, String, Bool, true, false, ◌≡◌, ◌≢◌, refl, sym, ap, ◌∙◌, Option, none, some, arith,
  Bool-cases, Option-cases, inl, inr, if◌then◌else◌, str_eq, eq_iff, ◌⊎◌,
}
use govisor.Number.{word, format_int, atoi}
use govisor.Server.Http as Server
use govisor.Server.Http.{
  Request, Response, ServiceInfo, service_info, respond, check_poll, seconds, second,
}
use govisor.Server.Get.{etag_of}
use govisor.Server.Caching.{etag_of-some, respond-new, respond-old, check_poll-etag_of}
use govisor.Client.Http.{Failure, Fetch, Web, Get, headers, Polled, answered, read_fetch, read_body}
use govisor.Common.Table.{lookup}
use govisor.Client.Cache.{
  Client, Answer, Plan, ready, ask, Tagged, plan_service, end_service, get, url,
}
use govisor.Client.Session.{arrive, headers-if_none_match, headers-if_modified_since}

module _ (web : Web) (decode : String → ServiceInfo → Failure ⊎ ServiceInfo)
    (empty : ServiceInfo) where
  -- `pollService` once it is known whether to ask.
  unfoldable pub carry_out :
      (Get → Fetch)
      → Client
      → String
      → Plan (Tagged ServiceInfo)
      → Answer (Option (Tagged ServiceInfo)) × Client
  unfolding end_service read_fetch lookup
  carry_out net c n (ready o) = (inr (some o), c)
  carry_out net c n (ask g) =
      end_service web n (lookup n c.services) (read_fetch web decode (net g) empty) c

  unfoldable pub poll_service :
      (Get → Fetch)
      → Client
      → String
      → ℕ
      → Option (Tagged ServiceInfo)
      → Answer (Option (Tagged ServiceInfo)) × Client
  unfolding carry_out plan_service
  poll_service net c n secs last = carry_out net c n (plan_service web c n secs last)

minutes : seconds (format_int 10 300) ≡ 300 * second
unfolding seconds format_int atoi
minutes = refl

-- What a call is to answer that has seen `last`, when the client has kept `old` and the server has
-- `now`.
unfoldable pub expected :
    Option (Tagged ServiceInfo)
    → Option (Tagged ServiceInfo)
    → Tagged ServiceInfo
    → Option (Tagged ServiceInfo)
expected none old now = some now
expected (some last) none now = if str_eq last.etag now.etag then none else some now
expected (some last) (some old) now = if str_eq last.etag old.etag then some now else some old

module _ (web : Web) (decode : String → ServiceInfo → Failure ⊎ ServiceInfo) (empty : ServiceInfo)
    (s : Server.Web) (ts : ℕ) (shown : String) (now : Tagged ServiceInfo) where
  -- The response of the server, which has `now`.
  abbrev pub serve : Get → Fetch
  serve g = arrive (respond s g.headers now.etag ts shown (service_info now.value))

  fetched : Bool → Polled ServiceInfo
  fetched true = answered "" empty
  fetched false = answered now.etag now.value

  read_fetch-serve :
      (c : Client) (address etag b : String) (wait : ℕ)
      → s.marshal (service_info now.value) ≡ inr b
      → decode b empty ≡ inr now.value
      → read_fetch web decode (serve (get web c address etag wait)) empty
        ≡ fetched (str_eq etag now.etag)
  unfolding get read_fetch read_body fetched
  read_fetch-serve c address etag b wait whole back = elim (Bool-cases (str_eq etag now.etag)) [
    | inl e ↦
        let sent =
          respond-old s (headers etag wait) now.etag ts shown (service_info now.value)
            (headers-if_modified_since etag wait)
            (headers-if_none_match etag wait ∙ (eq_iff etag now.etag).0 e) in
        rw e (ap (λ r. read_fetch web decode (arrive r) empty) sent)
    | inr e ↦
        let sent =
          respond-new s (headers etag wait) now.etag ts shown (service_info now.value) b
            (headers-if_modified_since etag wait)
            (λ h.
              ground (arith, e, eq_iff etag now.etag, sym (headers-if_none_match etag wait) ∙ h))
            whole in
        rw e (
          ap (λ r. read_fetch web decode (arrive r) empty) sent
          ∙ rw (back, read_fetch, read_body) refl)
  ]

  -- What the call answers, when the request is about the tag that is given.
  asked :
      (c : Client) (n address etag b : String) (wait : ℕ)
      → now.etag ≢ ""
      → s.marshal (service_info now.value) ≡ inr b
      → decode b empty ≡ inr now.value
      → (carry_out web decode empty serve c n (ask (get web c address etag wait))).0
        ≡ inr (if str_eq etag now.etag then lookup n c.services else some now)
  unfolding carry_out end_service fetched
  asked c n address etag b wait some_tag whole back = elim (Bool-cases (str_eq etag now.etag)) [
    | inl e ↦ rw (carry_out, read_fetch-serve c address etag b wait whole back, e) refl
    | inr e ↦
        let tagged : str_eq now.etag "" ≡ false = ground (arith, some_tag, eq_iff now.etag "") in
        rw (carry_out, read_fetch-serve c address etag b wait whole back, e, tagged) refl
  ]

  -- If the server has a service with a tag that is not empty, JSON brings it over, and what the
  -- client has kept under that tag is that service, then pollService, whatever it is given as
  -- last seen, answers the current service, or the one that the client has kept if that is not
  -- the one last seen, or, if the client has kept none and the last seen one is current, nil and
  -- no error.
  pub poll_service-expected :
      (c : Client) (n b : String) (secs : ℕ) (last : Option (Tagged ServiceInfo))
      → now.etag ≢ ""
      → s.marshal (service_info now.value) ≡ inr b
      → decode b empty ≡ inr now.value
      → ((o : Tagged ServiceInfo) → lookup n c.services ≡ some o → o.etag ≡ now.etag → o ≡ now)
      → (poll_service web decode empty serve c n secs last).0
        ≡ inr (expected last (lookup n c.services) now)
  unfolding poll_service plan_service expected
  poll_service-expected c n b secs none some_tag whole back known =
      let untagged : str_eq "" now.etag ≡ false = ground (arith, some_tag, eq_iff "" now.etag) in
      asked c n (url web c n) "" b 0 some_tag whole back ∙ rw untagged refl
  poll_service-expected c n b secs (some last) some_tag whole back known =
      elim (Option-cases (lookup n c.services)) [
        | inl e ↦
            rw (e, poll_service, plan_service)
              (asked c n (url web c n) last.etag b secs some_tag whole back ∙ rw (e, expected) refl)
        | inr (o, e) ↦ elim (Bool-cases (str_eq last.etag o.etag)) [
          | inr f ↦ rw (e, poll_service, plan_service, f, carry_out, expected) refl
          | inl f ↦
              rw (e, poll_service, plan_service, f, expected)
                (asked c n (url web c n) last.etag b secs some_tag whole back
                  ∙ rw e (ap inr (same o e ((eq_iff last.etag o.etag).0 f))))
        ]
      ]
    where
      same :
          (o : Tagged ServiceInfo)
          → lookup n c.services ≡ some o
          → last.etag ≡ o.etag
          → (if str_eq last.etag now.etag then some o else some now) ≡ some now
      same o e f = elim (Bool-cases (str_eq last.etag now.etag)) [
        | inl g ↦ rw g (ap some (known o e (sym f ∙ (eq_iff last.etag now.etag).0 g)))
        | inr g ↦ rw g refl
      ]

-- The tag and the time that a client sends to wait for a change of the number n, below 2 ^ 64,
-- are read by checkPoll as that number and 300 seconds.
pub watch-check_poll :
    (web : Web) (c : Client) (address : String) (n : ℕ)
    → n < word
    → check_poll (get web c address (etag_of n) 300).headers ≡ some (n, 300 * second)
unfolding get headers
watch-check_poll web c address n h =
    let tagged : str_eq (etag_of n) "" ≡ false =
      ground (arith, etag_of-some n, eq_iff (etag_of n) "") in
    rw (tagged, headers) (check_poll-etag_of _ n h refl ∙ ap (λ t. some (n, t)) minutes)
