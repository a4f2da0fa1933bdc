-- ===== src/Client/Cache.antt =====
-- rest/client.go `Client`. A call that polls takes the lock twice, before it asks and behind it, and
-- is in two parts here, since other calls may come between.
use govisor.Common.{
  ℕ, String, Option, none, some, List, [], ◌∷◌, if◌then◌else◌, str_eq, str_append, ◌⊎◌, inl, inr,
}
use govisor.Common.Table.{Table, lookup, delete, store}
use govisor.Server.Http.{ManagerInfo, ServiceInfo, LogRecord}
use govisor.Client.Http.{Failure, Reply, Get, Web, headers, Polled, refused, answered, read_post}

-- A value and the tag that it came with.
pub record Tagged (A : Type 0) : Type 0 where
  pub etag : String
  pub value : A

pub record Client : Type 0 where
  pub login : Option (String × String)
  pub base : String
  pub manager : Option (Tagged ManagerInfo)
  pub services : Table (Tagged ServiceInfo)
  pub names : List String
  pub etag : String
  pub logs : Table (Tagged (List LogRecord))

unfoldable pub new_client : String → Client
new_client base = record {
  login = none;
  base = base;
  manager = none;
  services = [];
  names = [];
  etag = "";
  logs = [];
}

unfoldable pub set_auth : String → String → Client → Client
set_auth user pass c = record c { login = some (user, pass) }

-- What a call answers: an error, or a value; a pointer that is nil is none.
abbrev pub Answer : Type 0 → Type 0
Answer A = Failure ⊎ A

-- What a call goes on with: an answer that needs no request, or a request and the tag it is about.
pub data Plan (A : Type 0) : Type 0 where
  ready : A → Plan A
  ask : Get → Plan A

module _ (web : Web) where
  unfoldable pub url : Client → String → String
  url c n =
      if str_eq n ""
      then str_append c.base "/services"
      else str_append (str_append c.base "/services/") (web.escape n)

  -- The request of `poll`.
  unfoldable pub get : Client → String → String → ℕ → Get
  unfolding headers
  get c address etag wait = record { url = address; login = c.login; headers = headers etag wait }

  -- `Watch`
  unfoldable pub plan_watch : Client → String → Plan String
  unfolding get
  plan_watch c etag = elim c.manager [
    | none ↦ ask (get c c.base etag 300)
    | some m ↦ if str_eq etag "" then ready m.etag else ask (get c c.base etag 300)
  ]

  abbrev pub newer : Option (Tagged ManagerInfo) → Tagged ManagerInfo → Option (Tagged ManagerInfo)
  newer none i = some i
  newer (some m) i = if str_eq m.etag i.etag then some m else some i

  unfoldable pub end_watch : String → Polled ManagerInfo → Client → Answer String × Client
  end_watch etag (refused e) c = (inl e, c)
  end_watch etag (answered tag i) c =
      if str_eq tag ""
      then (inr etag, c)
      else (inr tag, record c { manager = newer c.manager (record { etag = tag; value = i }) })

  -- `pollServices`
  unfoldable pub ask_services : Client → ℕ → Get
  unfolding get url
  ask_services c secs = get c (url c "") c.etag secs

  -- The services of the list that are known: those to keep, and the table they are taken from.
  unfoldable pub keep :
      List String
      → Table (Tagged ServiceInfo)
      → Table (Tagged ServiceInfo)
      → Table (Tagged ServiceInfo)
  unfolding lookup store delete
  keep [] old new = new
  keep (n ∷ ns) old new = elim (lookup n old) [
    | none ↦ keep ns old new
    | some x ↦ keep ns (delete n old) (store n x new)
  ]

  unfoldable pub end_services :
      String → List String → Polled (List String) → Client → Answer (List String) × Client
  unfolding keep
  end_services otag onames (refused e) c = (inl e, c)
  end_services otag onames (answered tag v) c =
      if str_eq tag ""
      then (inr onames, c)
      else if str_eq tag otag
      then (inr onames, c)
      else (inr v, record c { etag = tag; names = v; services = keep v c.services [] })

  -- `pollService`, with the value that the caller has seen last.
  unfoldable pub plan_service :
      Client → String → ℕ → Option (Tagged ServiceInfo) → Plan (Tagged ServiceInfo)
  unfolding lookup get url
  plan_service c n secs none = ask (get c (url c n) "" 0)
  plan_service c n secs (some last) = elim (lookup n c.services) [
    | none ↦ ask (get c (url c n) last.etag secs)
    | some o ↦ if str_eq last.etag o.etag then ask (get c (url c n) last.etag secs) else ready o
  ]

  unfoldable pub end_service :
      String
      → Option (Tagged ServiceInfo)
      → Polled ServiceInfo
      → Client
      → Answer (Option (Tagged ServiceInfo)) × Client
  unfolding store delete
  end_service n old (refused e) c = (inl e, record c { services = delete n c.services })
  end_service n old (answered tag v) c =
      if str_eq tag ""
      then (inr old, c)
      else (let x : Tagged ServiceInfo = record { etag = tag; value = v } in
          (inr (some x), record c { services = store n x c.services }))

  -- `pollLog`
  unfoldable pub log_url : Client → String → String
  unfolding url
  log_url c n = if str_eq n "" then str_append c.base "/log" else str_append (url c n) "/log"

  unfoldable pub ask_log : Client → String → ℕ → Option (Tagged (List LogRecord)) → Get
  unfolding lookup get log_url
  ask_log c n secs none = get c (log_url c n) "" 0
  ask_log c n secs (some last) = elim (lookup n c.logs) [
    | none ↦ get c (log_url c n) last.etag secs
    | some o ↦
        if str_eq last.etag o.etag
        then get c (log_url c n) last.etag secs
        else get c (log_url c n) o.etag 0
  ]

  unfoldable pub end_log :
      String
      → Option (Tagged (List LogRecord))
      → Polled (List LogRecord)
      → Client
      → Answer (Option (Tagged (List LogRecord))) × Client
  unfolding store delete
  end_log n old (refused e) c = (inl e, record c { logs = delete n c.logs })
  end_log n old (answered tag v) c =
      if str_eq tag ""
      then (inr old, c)
      else (let x : Tagged (List LogRecord) = record { etag = tag; value = v } in
          (inr (some x), record c { logs = store n x c.logs }))

  -- `postService`: the address, and the reply to it.
  unfoldable pub post_url : Client → String → String → String
  unfolding url
  post_url c n action = str_append (str_append (url c n) "/") action

  unfoldable pub post_service :
      (String → Option (String × String) → Failure ⊎ Reply)
      → Client
      → String
      → String
      → Option Failure
  unfolding post_url read_post
  post_service send c n action = read_post web (send (post_url c n action) c.login)
