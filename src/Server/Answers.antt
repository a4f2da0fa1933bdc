-- ===== src/Server/Answers.antt =====
-- server/server.go: what the calls of services answer, and what they leave of the Manager.
use govisor.Common.{
  not, ◌&&◌, ◌==◌, suc, String, true, false, ◌≡◌, ◌≢◌, refl, ap, ℕ, none, some, inl, inr, Sum-cases,
  arith,
}
use govisor.Common.Refs.{Ref, contains}
use govisor.World.{World, Env, Error, conflict, text, done}
use govisor.Service.Runnable.{all_satisfied}
use govisor.Service.Api.{Reply, enable, disable, restart, clear}
use govisor.Invariant.Post.{Ensures}
use govisor.Invariant.Neighbours.{view}
use govisor.Invariant.Frames.{Fair}
use govisor.Invariant.Quiet.{Inv}
use govisor.Machine.Replies.{enable-Refuses, enable-Runs, disable-Stops}
use govisor.Server.Http.{Web, Body, ok, error, write_json, write_error, blank}
use govisor.Server.Get.{find_service}
use govisor.Server.Post.{
  Served, finish, on_service, enable_service, disable_service, restart_service, clear_service,
}

module _ (env : Env) (web : Web) where
  finish-fine :
      (r : Reply)
      → r.0 ≡ none
      → ((b : Body) (x : String) → web.marshal b ≢ inl x)
      → ((finish env web r).0.status ≡ 200) × ((finish env web r).1 ≡ r.1)
  unfolding finish write_json
  finish-fine (some e, o) h works = ground (arith, h)
  finish-fine (none, o) h works = elim (Sum-cases (web.marshal ok)) [
    | inl (x, f) ↦ absurd (works ok x f)
    | inr (x, f) ↦ rw (f, write_json) (refl, refl)
  ]

  finish-refused :
      (r : Reply) (e : Error)
      → r.0 ≡ some e
      → finish env web r ≡ (write_error web 400 (text e) blank, r.1)
  unfolding finish
  finish-refused (none, o) e h = ground (arith, h)
  finish-refused (some x, o) e h =
      let same : x ≡ e = ground (arith, h) in rw (ap (λ y. finish env web (some y, o)) same) refl

  write_error-status :
      (n : ℕ) (m : String)
      → ((b : Body) (x : String) → web.marshal b ≢ inl x)
      → (write_error web n m blank).status ≡ n
  unfolding write_error
  write_error-status n m works = elim (Sum-cases (web.marshal (error n m))) [
    | inl (x, f) ↦ absurd (works (error n m) x f)
    | inr (x, f) ↦ rw (f, write_error) refl
  ]

  -- For fair map orders and a JSON encoder that does not fail, if the service that is found
  -- under a name is managed and not enabled and one that it conflicts with is enabled, then
  -- enableService answers the status 400, returns, and leaves the flags and the limiters of all
  -- services as they are.
  pub enable_service-conflict :
      (n : String) (s c : Ref) (w : World)
      → Fair env
      → ((b : Body) (x : String) → web.marshal b ≢ inl x)
      → find_service env n w ≡ some s
      → (w.links s).managed ≡ true
      → (w.flags s).enabled ≡ false
      → contains c (w.links s).incompat ≡ true
      → (w.flags c).enabled ≡ true
      → ((enable_service env web n w).0.status ≡ 400)
        × Ensures (λ x. (x.flags ≡ w.flags) × (x.rate ≡ w.rate)) (enable_service env web n w).1
  unfolding enable_service on_service
  enable_service-conflict n s c w fair works found member off m on =
      let w1 = record w { tick = suc w.tick } in
      let (said, left) = enable-Refuses env fair s c w1 member off m on in
      rw (found, enable_service, on_service, finish-refused (enable env s w1) conflict said)
        (write_error-status 400 (text conflict) works, left)

  -- For fair map orders and a JSON encoder that does not fail, if the invariant of the Manager
  -- holds and the service that is found under a name is managed and not enabled, all its
  -- dependencies are satisfied, none that it conflicts with is enabled and its provider always
  -- starts it, then enableService answers the status 200, returns and leaves the service
  -- running.
  pub enable_service-Runs :
      (n : String) (s : Ref) (w : World)
      → Fair env
      → ((b : Body) (x : String) → web.marshal b ≢ inl x)
      → Inv (view w)
      → find_service env n w ≡ some s
      → (w.links s).managed ≡ true
      → (w.flags s).enabled ≡ false
      → all_satisfied w.flags (w.links s).parents ≡ true
      → ((c : Ref) → contains c (w.links s).incompat ≡ true → (w.flags c).enabled ≡ false)
      → ((t : ℕ) → env.start_result t s ≡ none)
      → ((enable_service env web n w).0.status ≡ 200)
        × Ensures (λ x. (x.flags s).running ≡ true) (enable_service env web n w).1
  unfolding enable_service on_service
  enable_service-Runs n s w fair works i found member off met free starts =
      let w1 = record w { tick = suc w.tick } in
      let (said, left) = enable-Runs env fair s w1 i member off met free starts in
      let (code, same) = finish-fine (enable env s w1) said works in
      rw (found, enable_service, on_service, same) (code, left)

  -- For fair map orders and a JSON encoder that does not fail, if the invariant of the Manager
  -- holds and the service that is found under a name is managed, then disableService answers the
  -- status 200, returns and leaves the service neither enabled nor running, and every other
  -- service enabled as before.
  disable_service-Stops :
      (n : String) (s : Ref) (w : World)
      → Fair env
      → ((b : Body) (x : String) → web.marshal b ≢ inl x)
      → Inv (view w)
      → find_service env n w ≡ some s
      → (w.links s).managed ≡ true
      → ((disable_service env web n w).0.status ≡ 200)
        × Ensures
            (λ x.
              ((x.flags s).enabled ≡ false)
              × ((x.flags s).running ≡ false)
              × ((r : Ref) → (x.flags r).enabled ≡ ((w.flags r).enabled && not (s == r))))
            (disable_service env web n w).1
  unfolding disable_service on_service
  disable_service-Stops n s w fair works i found member =
      let w1 = record w { tick = suc w.tick } in
      let (said, left) = disable-Stops env fair s w1 i member in
      let (code, same) = finish-fine (disable env s w1) said works in
      rw (found, disable_service, on_service, same) (code, left)

  on_service-missing :
      (n : String) (f : Ref → World → Served) (w : World)
      → ((b : Body) (x : String) → web.marshal b ≢ inl x)
      → find_service env n w ≡ none
      → ((on_service env web n f w).0.status ≡ 404)
        × ((on_service env web n f w).1 ≡ done (record w { tick = suc w.tick }))
  unfolding on_service
  on_service-missing n f w works lost =
      rw (lost, on_service) (write_error-status 404 "Service not found" works, refl)

  -- Without a service of the name.
  posts-missing :
      (n : String) (w : World)
      → ((b : Body) (x : String) → web.marshal b ≢ inl x)
      → find_service env n w ≡ none
      → let same = done (record w { tick = suc w.tick }) in
        (((enable_service env web n w).0.status ≡ 404) × ((enable_service env web n w).1 ≡ same))
        × (((disable_service env web n w).0.status ≡ 404)
            × ((disable_service env web n w).1 ≡ same))
        × (((restart_service env web n w).0.status ≡ 404)
            × ((restart_service env web n w).1 ≡ same))
        × (((clear_service env web n w).0.status ≡ 404) × ((clear_service env web n w).1 ≡ same))
  unfolding enable_service disable_service restart_service clear_service
  posts-missing n w works lost = (
    on_service-missing n (λ s v. finish env web (enable env s v)) w works lost,
    on_service-missing n (λ s v. finish env web (disable env s v)) w works lost,
    on_service-missing n (λ s v. finish env web (restart env s v)) w works lost,
    on_service-missing n (λ s v. (write_json web ok blank, clear env s v)) w works lost,
  )
