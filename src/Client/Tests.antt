-- ===== src/Client/Tests.antt =====
-- A client at work with a server.
use govisor.Common.{
  ℕ, ◌*◌, String, true, false, ◌≡◌, ◌≢◌, refl, none, some, List, [], ◌∷◌, map, inr, arith, eq_iff,
  str_eq, leb, if◌then◌else◌, ◌⊎◌,
}
use govisor.World.{World}
use govisor.Machine.{new_manager}
use govisor.Machine.Tests.{env, props}
use govisor.Server.Http as Server
use govisor.Server.Http.{Body, names, ServiceInfo, service_info, check_poll, second}
use govisor.Server.Get.{etag_of, names_of}
use govisor.Client.Http.{Failure, Web}
use govisor.Common.Table.{lookup}
use govisor.Client.Cache.{Client, Tagged, new_client, get}
use govisor.Client.Session.{session, listed, Knows, nothing, Numbered, ended, also, session-listed}
use govisor.Client.Service.{poll_service, expected, serve, poll_service-expected, watch-check_poll}

abbrev web : Web
web = record { escape = λ s. s; read_error = λ b n m. none }

-- Lists of services in JSON: none, or the two below.
abbrev text : Body → String
text (names []) = "[]"
text v = "[\"db\",\"web:a\"]"

abbrev server : Server.Web
server = record {
  marshal = λ v. inr (text v);
  format_utc = λ t. "then";
  format_local = λ t. "then";
  parse_time = λ s. some 0;
  now = 0;
}

abbrev decode : String → List String → Failure ⊎ List String
decode b l = if str_eq b "[]" then inr [] else inr ("db" ∷ "web:a" ∷ [])

abbrev empty : World
empty = new_manager props "demo" 7

-- Two services, with the number 9.
abbrev full : World
full = record empty { services = 0 ∷ 1 ∷ []; list_serial = 9 }

abbrev at_serial : ℕ → List String
at_serial n = if leb n 8 then [] else "db" ∷ "web:a" ∷ []

history : Numbered web decode env server at_serial (empty ∷ full ∷ full ∷ [])
unfolding new_manager names_of
history =
    also (omega arith) refl _ refl refl
      (also (omega arith) refl _ refl refl (also (omega arith) refl _ refl refl ended))

begins : Knows web decode at_serial (new_client "http://here")
unfolding new_client
begins = nothing refl

session-listed_example :
    session web decode env server (empty ∷ full ∷ full ∷ []) (new_client "http://here")
    ≡ map (λ w. inr (listed web decode env w)) (empty ∷ full ∷ full ∷ [])
session-listed_example =
    session-listed web decode env server at_serial (empty ∷ full ∷ full ∷ [])
      (new_client "http://here") history begins

abbrev web_info : ServiceInfo
web_info = record {
  name = "web:a";
  description = "";
  enabled = true;
  running = false;
  failed = false;
  provides = [];
  depends = [];
  conflicts = [];
  status = "";
  time_stamp = 3;
  serial = "5";
}

abbrev current : Tagged ServiceInfo
current = record { etag = "\"5\""; value = web_info }

abbrev reading : String → ServiceInfo → Failure ⊎ ServiceInfo
reading b i = inr web_info

-- The client has forgotten the service that its caller has seen, which has not changed.
abbrev forgetful : Client
forgetful = new_client "http://here"

tag_some : ◌≢◌ {A = String} "\"5\"" ""
tag_some e = ground (arith, (eq_iff "\"5\"" "").1 e)

forgotten :
    (o : Tagged ServiceInfo)
    → lookup "web:a" forgetful.services ≡ some o
    → o.etag ≡ current.etag
    → o ≡ current
unfolding lookup new_client
forgotten o e f = ground (arith, e)

poll_service-expected_example :
    (poll_service web reading web_info
      (serve web reading web_info server 3 "then" current)
      forgetful
      "web:a"
      300
      (some current)).0
    ≡ inr (expected (some current) (lookup "web:a" forgetful.services) current)
poll_service-expected_example =
    poll_service-expected web reading web_info server 3 "then" current forgetful "web:a"
      "[\"db\",\"web:a\"]" 300 (some current) tag_some refl refl forgotten

watch-check_poll_example :
    check_poll (get web forgetful "http://here" (etag_of 11) 300).headers ≡ some (11, 300 * second)
watch-check_poll_example = watch-check_poll web forgetful "http://here" 11 (omega arith)

abbrev keeper : Client
keeper = record forgetful { services = ("web:a", current) ∷ ("old", current) ∷ [] }
