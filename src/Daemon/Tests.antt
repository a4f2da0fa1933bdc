-- ===== src/Daemon/Tests.antt =====
-- The daemon, set up with a password.
use govisor.Common.{true, false, ◌≡◌, refl, none, some, [], ◌∷◌, inr, str_eq}
use govisor.Machine.{new_manager}
use govisor.Machine.Tests.{env, env-Fair, props}
use govisor.Invariant.Post.{Ensures}
use govisor.Invariant.Neighbours.{view}
use govisor.Invariant.Quiet.{Inv}
use govisor.Daemon.Start.{start_up}
use govisor.Daemon.Enabled.{all_decided, start_up-decided}
use govisor.Server.Http.{blank}
use govisor.Daemon.Auth.{System, MyHandler, asks, set_up, Answered, serve_http, serve_http-set_up}

-- No file is there, and a password is stored as it is.
abbrev sys : System
sys = record {
  accepts = λ enc pass. str_eq enc pass;
  generate = λ pass. inr pass;
  join = λ a b. b;
  quoted = λ n. n;
  exists = λ f. false;
  read_records = λ f. inr ([], none);
}

abbrev handler : MyHandler
handler = record { auth = true; passwd = ("root", "secret") ∷ []; name = "demo" }

asked : asks sys "root:secret" "" "." ≡ true
unfolding asks
asked = refl

set : set_up sys "demo" "root:secret" "" "." ≡ some handler
unfolding set_up
set = refl

serve_http-set_up_example :
    Answered sys handler
      (some ("root", "secret"))
      blank
      (serve_http sys handler (some ("root", "secret")) blank)
serve_http-set_up_example =
    serve_http-set_up sys "demo" "root:secret" "" "." handler (some ("root", "secret")) blank asked
      set

start_up-decided_example :
    Ensures
      (λ x. Inv (view x) × (all_decided x.flags x.links x.services ≡ true))
      (start_up env true (some 0 ∷ none ∷ some 1 ∷ some 2 ∷ []) (new_manager props "demo" 7))
start_up-decided_example =
    start_up-decided env env-Fair (some 0 ∷ none ∷ some 1 ∷ some 2 ∷ []) props "demo" 7
