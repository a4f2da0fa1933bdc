-- ===== src/Client/Session.antt =====
-- rest/client.go `Services` against server/server.go `listServices`: calls, one after the other, while
-- the Manager goes on.
use govisor.Common.{
  ℕ, ◌<◌, ◌==◌, String, false, ◌≡◌, ◌≢◌, ==_iff, subst, refl, sym, ap, ◌∙◌, List, [], ◌∷◌, map,
  arith, Bool-cases, inl, inr, str_eq, eq_iff, ◌⊎◌,
}
use govisor.World.{World, Env}
use govisor.Number.{word}
use govisor.Server.Http as Server
use govisor.Server.Http.{
  Request, Response, Body, names, respond, cond_check_get, write_json, unmodified,
}
use govisor.Server.Get.{etag_of, list_services, names_of, services}
use govisor.Server.Caching.{etag_of-injective, etag_of-some, respond-new, respond-old}
use govisor.Client.Http.{Failure, Fetch, response, Web, headers, answered, read_fetch, read_body}
use govisor.Client.Cache.{Client, Answer, ask_services, end_services, keep, get}

-- A response on its way to the client.
abbrev pub arrive : Response → Fetch
arrive r = response (record { code = r.status; status = ""; etag = r.etag; body = inr r.body })

pub headers-if_none_match : (etag : String) (wait : ℕ) → (headers etag wait).if_none_match ≡ etag
unfolding headers
headers-if_none_match etag wait = elim (Bool-cases (str_eq etag "")) [
  | inl e ↦ rw (e, headers) (sym ((eq_iff etag "").0 e))
  | inr e ↦ rw (e, headers) (ground arith)
]

pub headers-if_modified_since :
    (etag : String) (wait : ℕ) → (headers etag wait).if_modified_since ≡ ""
unfolding headers
headers-if_modified_since etag wait = ground arith

module _ (web : Web) (decode : String → List String → Failure ⊎ List String) where
  -- `Services`, with the server as a function of the headers.
  unfoldable pub list_names : (Request → Response) → Client → Answer (List String) × Client
  unfolding ask_services end_services read_fetch
  list_names server c =
      let sent = ask_services web c 0 in
      end_services web c.etag c.names (read_fetch web decode (arrive (server sent.headers)) []) c

  -- Calls, each in a state of the Manager.
  unfoldable pub session : Env → Server.Web → List World → Client → List (Answer (List String))
  unfolding list_names
  session env s [] c = []
  session env s (w ∷ ws) c =
      let (a, d) = list_names (λ r. list_services env s r w) c in a ∷ session env s ws d

  -- What the server lists.
  abbrev pub listed : Env → World → List String
  listed env w = names_of w.props (services env w)

  -- What the client keeps is a list that the server had, under its tag.
  pub data Knows (at_serial : ℕ → List String) (c : Client) : Type 0 where
    nothing : c.etag ≡ "" → Knows at_serial c
    listing : (n : ℕ) → n < word → c.etag ≡ etag_of n → c.names ≡ at_serial n → Knows at_serial c

  read_fetch-arrive :
      (r : Response) (l : List String)
      → r.status ≡ 200
      → decode r.body [] ≡ inr l
      → read_fetch web decode (arrive r) [] ≡ answered r.etag l
  unfolding read_fetch read_body
  read_fetch-arrive r l fine whole = rw (fine, read_fetch, whole, read_body) refl

  -- The client behind a list that is new to it.
  abbrev learned : Client → String → List String → Client
  learned c tag l = record c { etag = tag; names = l; services = keep web l c.services [] }

  end_services-new :
      (otag tag : String) (onames l : List String) (c : Client)
      → tag ≢ ""
      → tag ≢ otag
      → end_services web otag onames (answered tag l) c ≡ (inr l, learned c tag l)
  unfolding end_services
  end_services-new otag tag onames l c some_tag new =
      let tagged : str_eq tag "" ≡ false = ground (arith, some_tag, eq_iff tag "") in
      let other : str_eq tag otag ≡ false = ground (arith, new, eq_iff tag otag) in
      rw (tagged, other, end_services) refl

  list_names-new :
      (server : Request → Response) (c : Client) (r : Response) (l : List String)
      → server (headers c.etag 0) ≡ r
      → r.status ≡ 200
      → decode r.body [] ≡ inr l
      → r.etag ≢ ""
      → r.etag ≢ c.etag
      → list_names server c ≡ (inr l, learned c r.etag l)
  unfolding list_names ask_services get
  list_names-new server c r l e fine whole some_tag new =
      rw (e, list_names, ask_services, get, read_fetch-arrive r l fine whole)
        (end_services-new c.etag r.etag c.names l c some_tag new)

  list_names-old :
      (server : Request → Response) (c : Client)
      → server (headers c.etag 0) ≡ Server.not_modified
      → list_names server c ≡ (inr c.names, c)
  unfolding list_names ask_services get read_fetch end_services
  list_names-old server c e = rw (e, list_names, ask_services, get, read_fetch, end_services) refl

  module _ (env : Env) (s : Server.Web) (at_serial : ℕ → List String) where
    -- A call in a state of the Manager that the client does not know.
    list_names-fresh :
        (w : World) (c : Client) (b : String)
        → w.list_serial < word
        → listed env w ≡ at_serial w.list_serial
        → s.marshal (names (listed env w)) ≡ inr b
        → decode b [] ≡ inr (listed env w)
        → c.etag ≢ etag_of w.list_serial
        → ((list_names (λ r. list_services env s r w) c).0 ≡ inr (listed env w))
          × Knows at_serial (list_names (λ r. list_services env s r w) c).1
    unfolding list_services
    list_names-fresh w c b low stands whole back new =
        let tag = etag_of w.list_serial in
        let asked = headers c.etag 0 in
        let sent =
          respond-new s asked tag w.list_stamp (s.format_utc w.list_stamp) (names (listed env w)) b
            (headers-if_modified_since c.etag 0)
            (λ h. new (sym (headers-if_none_match c.etag 0) ∙ h)) whole in
        let call =
          list_names-new (λ r. list_services env s r w) c _ (listed env w) sent refl back
            (etag_of-some w.list_serial) (λ h. new (sym h)) in
        (
          ap (λ x. x.0) call,
          subst (λ x. Knows at_serial x.1) (sym call) (listing w.list_serial low refl stands),
        )

    list_names-Knows :
        (w : World) (c : Client) (b : String)
        → w.list_serial < word
        → listed env w ≡ at_serial w.list_serial
        → s.marshal (names (listed env w)) ≡ inr b
        → decode b [] ≡ inr (listed env w)
        → Knows at_serial c
        → ((list_names (λ r. list_services env s r w) c).0 ≡ inr (listed env w))
          × Knows at_serial (list_names (λ r. list_services env s r w) c).1
    unfolding list_services
    list_names-Knows w c b low stands whole back (nothing e) =
        list_names-fresh w c b low stands whole back (λ h. etag_of-some w.list_serial (sym h ∙ e))
    list_names-Knows w c b low stands whole back (listing n m e l) =
        elim (Bool-cases (n == w.list_serial)) [
          | inr other ↦ list_names-fresh w c b low stands whole back (λ h. ground (
            arith,
            other,
            ==_iff n w.list_serial,
            etag_of-injective n w.list_serial m low (sym e ∙ h),
          ))
          | inl same ↦
              let now : n ≡ w.list_serial = (==_iff n w.list_serial).0 same in
              let sent =
                respond-old s (headers c.etag 0) (etag_of w.list_serial) w.list_stamp
                  (s.format_utc w.list_stamp) (names (listed env w))
                  (headers-if_modified_since c.etag 0)
                  (headers-if_none_match c.etag 0 ∙ e ∙ ap etag_of now) in
              let call = list_names-old (λ r. list_services env s r w) c sent in
              (
                ap (λ x. x.0) call ∙ ap inr (l ∙ ap at_serial now ∙ sym stands),
                subst (λ x. Knows at_serial x.1) (sym call) (listing n m e l),
              )
        ]

    -- States in which the number of the list stands for it, and the list is sent and read again.
    pub data Numbered : List World → Type 0 where
      ended : Numbered []
      also :
          {w : World} {ws : List World}
          → w.list_serial < word
          → listed env w ≡ at_serial w.list_serial
          → (b : String) → s.marshal (names (listed env w)) ≡ inr b
          → decode b [] ≡ inr (listed env w)
          → Numbered ws
          → Numbered (w ∷ ws)

    -- A client that calls Services again and again, while the Manager goes on, is told each time
    -- just what the server lists, as a client without a cache would be, if the number of the
    -- list stands for the list in the states in question and the list is sent and read again in
    -- JSON, and the client knows nothing or a list of the server under its tag at the start.
    pub session-listed :
        (ws : List World) (c : Client)
        → Numbered ws
        → Knows at_serial c
        → session env s ws c ≡ map (λ w. inr (listed env w)) ws
    unfolding session
    session-listed [] c ended k = refl
    session-listed (w ∷ ws) c (also low stands b whole back rest) k =
        let (said, knows) = list_names-Knows w c b low stands whole back k in
        rw (said, session-listed ws _ rest knows) refl
