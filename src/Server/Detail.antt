-- ===== src/Server/Detail.antt =====
-- server/server.go `getService`: a view of a service that is read in several steps.
use govisor.Common.{
  ℕ, zero, suc, ◌+◌, ◌*◌, ◌≤◌, ◌==◌, ==_iff, Bool, true, ◌≡◌, refl, sym, ap, ◌∙◌, Option, none,
  some, if◌then◌else◌, arith, Bool-cases, inl, inr,
}
use govisor.Common.Refs.{Ref}
use govisor.World.{World}
use govisor.Service.Api.{enabled, running, failed}
use govisor.Number.{format_int}
use govisor.Server.Http.{Request, Response, Web, ServiceInfo, service_info, quote, respond}

-- `svc.Serial()`
unfoldable pub serial : Ref → World → ℕ
serial s w = if (w.links s).managed then (w.info s).serial else 0

-- The readings of one round: the serial number, what is fixed and the flags, and the status.
unfoldable pub read_info : Ref → World → World → World → World → World → ServiceInfo
unfolding serial enabled running failed
read_info s w0 w1 w2 w3 w4 = record {
  name = (w1.props s).name;
  description = (w1.props s).desc;
  enabled = enabled s w1;
  running = running s w2;
  failed = failed s w3;
  provides = (w3.props s).provides;
  depends = (w3.props s).depends;
  conflicts = (w3.props s).conflicts;
  status = (w4.info s).reason;
  time_stamp = (w4.info s).stamp;
  serial = format_int 16 (serial s w0);
}

-- The parts of five views that a round puts together.
abbrev assemble : ServiceInfo → ServiceInfo → ServiceInfo → ServiceInfo → ServiceInfo → ServiceInfo
assemble a b c d e = record {
  name = b.name;
  description = b.description;
  enabled = b.enabled;
  running = c.running;
  failed = d.failed;
  provides = d.provides;
  depends = d.depends;
  conflicts = d.conflicts;
  status = e.status;
  time_stamp = e.time_stamp;
  serial = a.serial;
}

module _ (s : Ref) (past : ℕ → World) where
  -- The round that starts with the reading `t`; the last one is that of the serial number again.
  unfoldable pub round : ℕ → ServiceInfo
  unfolding read_info
  round t = read_info s (past t) (past (t + 1)) (past (t + 2)) (past (t + 3)) (past (t + 4))

  unfoldable pub steady : ℕ → Bool
  unfolding serial
  steady t = serial s (past t) == serial s (past (t + 5))

  -- The loop, for at most as many rounds as the fuel says.
  unfoldable pub view_service : ℕ → ℕ → Option ServiceInfo
  unfolding round steady
  view_service zero t = none
  view_service (suc f) t =
      let rest = view_service f (t + 6) in if steady t then some (round t) else rest

  -- The handler behind the wait.
  unfoldable pub get_service : Web → Request → ℕ → ℕ → Option Response
  unfolding view_service
  get_service web r f t = elim (view_service f t) [
    | none ↦ none
    | some i ↦
        some (
          respond web r (quote i.serial) i.time_stamp (web.format_utc i.time_stamp)
            (service_info i))
  ]

  -- What a client should see: the service as it is in one state.
  unfoldable pub snapshot : World → ServiceInfo
  unfolding read_info
  snapshot w = read_info s w w w w w

  -- A serial number that is seen again stands for the same service all along.
  abbrev pub Faithful : Type 0
  Faithful =
      (a b c : ℕ)
      → a ≤ b
      → b ≤ c
      → serial s (past a) ≡ serial s (past c)
      → snapshot (past b) ≡ snapshot (past a)

  -- From `n` on, the service is left alone.
  abbrev pub Settles : ℕ → Type 0
  Settles n = (k : ℕ) → n ≤ k → serial s (past k) ≡ serial s (past n)

  round-assemble :
      (t : ℕ)
      → round t
        ≡ assemble
            (snapshot (past t))
            (snapshot (past (t + 1)))
            (snapshot (past (t + 2)))
            (snapshot (past (t + 3)))
            (snapshot (past (t + 4)))
  unfolding round snapshot read_info
  round-assemble t = refl

  round-snapshot : (t : ℕ) → Faithful → steady t ≡ true → round t ≡ snapshot (past t)
  unfolding steady
  round-snapshot t h e =
      let same : serial s (past t) ≡ serial s (past (t + 5)) = (==_iff _ _).0 e in
      let one = h t (t + 1) (t + 5) (omega arith) (omega arith) same in
      let two = h t (t + 2) (t + 5) (omega arith) (omega arith) same in
      let three = h t (t + 3) (t + 5) (omega arith) (omega arith) same in
      let four = h t (t + 4) (t + 5) (omega arith) (omega arith) same in
      round-assemble t ∙ rw (one, two, three, four) refl

  settle_steady : (n t : ℕ) → Settles n → n ≤ t → steady t ≡ true
  unfolding steady
  settle_steady n t still late =
      (==_iff _ _).1 (still t late ∙ sym (still (t + 5) (omega (arith, late))))

  -- If a serial number that is seen again stands for the same service all along, and the serial
  -- number of the service does not change from the reading n on, then the loop of getService,
  -- from the reading t on, ends within f + 1 rounds where n is at most t + 6 f, with a view of
  -- the service as it was in one single state.
  pub view_service-snapshot :
      (n f t : ℕ)
      → Faithful
      → Settles n
      → n ≤ t + 6 * f
      → (u : ℕ) × (view_service (suc f) t ≡ some (snapshot (past u)))
  unfolding view_service
  view_service-snapshot n zero t h still late =
      let e = settle_steady n t still (omega (arith, late)) in
      (t, rw (e, view_service) (ap some (round-snapshot t h e)))
  view_service-snapshot n (suc f) t h still late = elim (Bool-cases (steady t)) [
    | inl e ↦ (t, rw (e, view_service) (ap some (round-snapshot t h e)))
    | inr e ↦
        let (u, g) = view_service-snapshot n f (t + 6) h still (omega (arith, late)) in
        (u, rw (e, view_service) g)
  ]
