-- ===== src/Invariant/Outcomes.antt =====
-- manager.go `bumpSerial`: operations whose outcome is tracked, and how a change is tracked.
use native.Mathlib.Nat.{mod-mod}
use govisor.Common.{ℕ, ◌+◌, ◌%◌, ◌≤◌, ◌==◌, false, ◌≡◌, ap, ◌∙◌, none, List, [], ◌∷◌, arith}
use govisor.Common.Refs.{Ref}
use govisor.World.{World, Props, Flags, Info, Links, Outcome, done, panic, spent, ◌>>=◌, for_each}
use govisor.World.Steps.{serial_mod}
use govisor.Invariant.Tracked.{
  mod_step, Same-trans, Settled-trans, Tracked-trans, Idle-Tracked, Tracked-refl, Touched-Tracked,
  Marked-Tracked, Tracked-Touched, weakened, Same, Settled, Tracked, Idle, Touched, Marked, fresh,
}

-- An operation that returns does so in a state that is tracked; whether it returns is no matter here.
pub data Tracks (v : World) : Outcome → Type 0 where
  tracks : {w : World} (k : ℕ) → Tracked none k v w → Tracks v (done w)
  panics : Tracks v panic
  runs_out : Tracks v spent

pub Tracks-bind :
    {v : World} {o : Outcome} {f : World → Outcome}
    → Tracks v o
    → ((w : World) → Tracks w (f w))
    → Tracks v (o >>= f)
Tracks-bind panics h = panics
Tracks-bind runs_out h = runs_out
Tracks-bind (tracks {w} k t) h = after k t (h w)
  where
    after : {a b : World} {o : Outcome} (k : ℕ) → Tracked none k a b → Tracks b o → Tracks a o
    after k t (tracks l u) = tracks (k + l) (Tracked-trans k l t u)
    after k t panics = panics
    after k t runs_out = runs_out

pub Tracks-for_each :
    (f : Ref → World → Outcome)
    → ((r : Ref) (w : World) → Tracks w (f r w))
    → (l : List Ref) (w : World) → Tracks w (for_each f l w)
unfolding for_each
Tracks-for_each f h [] w = tracks 0 (Tracked-refl w)
Tracks-for_each f h (r ∷ rs) w = Tracks-bind (h r w) (λ x. Tracks-for_each f h rs x)

pub Marked-Tracked_one : (s : Ref) {v w : World} → Marked 1 s v w → Tracked none 1 v w
Marked-Tracked_one s {v = v} m = Marked-Tracked s 0 1 (omega arith) (Tracked-refl v) m

pub Settled-Marked :
    (s : Ref) {u v w : World} (k : ℕ) → Tracked none k u v → Marked 1 s v w → Settled (k + 1) u w s
Settled-Marked s {u = u} {v = v} k t m =
    fresh (k + 1) (omega arith) (omega arith)
      (m.serial ∙ mod_step u.mgr_serial v.mgr_serial k 1 t.handed)

-- A service that is changed first and gets its number at the end.
pub Tracks-Marked :
    (s : Ref) {v u : World} {o : Outcome} (f : World → World)
    → Touched s v u
    → Tracks u o
    → ((w : World) → Marked 1 s w (f w))
    → Tracks v (o >>= λ w. done (f w))
Tracks-Marked s f t panics h = panics
Tracks-Marked s f t runs_out h = runs_out
Tracks-Marked s f t (tracks {w} k a) h = tracks (0 + k + 1) (
    Marked-Tracked s (0 + k) 1 (omega arith) (Tracked-trans 0 k (Touched-Tracked s t) (weakened a))
      (h w))

-- A service that gets its number first, and is changed again behind what follows.
pub Tracks-Touched :
    (s : Ref) {v u : World} {o : Outcome} (f : World → World) (g : World → Outcome)
    → Marked 1 s v u
    → Tracks u o
    → ((w : World) → Touched s w (f w))
    → ((w : World) → Tracks w (g w))
    → Tracks v (o >>= λ w. g (f w))
Tracks-Touched s f g m panics t h = panics
Tracks-Touched s f g m runs_out t h = runs_out
Tracks-Touched s {v = v} f g m (tracks {w} k a) t h =
    let first = Marked-Tracked_one s m in
    let settled =
      Settled-trans 1 k first.handed (fresh 1 (omega arith) (omega arith) m.serial)
        (a.each s (λ e. ground (arith, e))) in
    Tracks-bind {o = done (f w)} {f = g}
      (tracks (1 + k) (Tracked-Touched s (1 + k) (Tracked-trans 1 k first a) settled (t w))) h

-- The same by columns, where the graph and the settings stay.
module _ (s : Ref) {v w : World} (links : w.links ≡ v.links)
    (props : (r : Ref) → (s == r) ≡ false → w.props r ≡ v.props r)
    (flags : (r : Ref) → (s == r) ≡ false → w.flags r ≡ v.flags r)
    (info : (r : Ref) → (s == r) ≡ false → w.info r ≡ v.info r) where
  others-Same : (r : Ref) → (s == r) ≡ false → Same v w r
  others-Same r h = record {
    managed = ap (λ (l : Ref → Links). (l r).managed) links;
    props = props r h;
    flags = flags r h;
    reason = ap (λ i. i.reason) (info r h);
    stamp = ap (λ i. i.stamp) (info r h);
    serial = ap (λ i. i.serial) (info r h);
  }

  pub marked :
      v.tick + 1 ≤ w.tick
      → w.mgr_serial ≡ (v.mgr_serial + 1) % serial_mod
      → (w.info s).serial ≡ (v.mgr_serial + 1) % serial_mod
      → Marked 1 s v w
  marked clock mgr serial = record {
    mgr = ap (λ n. n % serial_mod) mgr ∙ mod-mod (v.mgr_serial + 1) serial_mod;
    clock = clock;
    others = others-Same;
    serial = serial;
  }

  pub touched :
      v.tick ≤ w.tick
      → w.mgr_serial ≡ v.mgr_serial
      → (w.info s).serial ≡ (v.info s).serial
      → Touched s v w
  touched clock mgr serial = record {
    mgr = mgr;
    clock = clock;
    others = others-Same;
    managed = ap (λ (l : Ref → Links). (l s).managed) links;
    serial = serial;
  }

-- Nothing but what is not shown.
pub unseen :
    {v w : World}
    → v.tick ≤ w.tick
    → w.links ≡ v.links
    → w.props ≡ v.props
    → w.flags ≡ v.flags
    → w.info ≡ v.info
    → w.mgr_serial ≡ v.mgr_serial
    → Idle v w
unseen clock links props flags info mgr = record {
  mgr = mgr;
  clock = clock;
  each = λ r. record {
    managed = ap (λ (l : Ref → Links). (l r).managed) links;
    props = ap (λ (p : Ref → Props). p r) props;
    flags = ap (λ (f : Ref → Flags). f r) flags;
    reason = ap (λ (i : Ref → Info). (i r).reason) info;
    stamp = ap (λ (i : Ref → Info). (i r).stamp) info;
    serial = ap (λ (i : Ref → Info). (i r).serial) info;
  };
}

pub Idle-trans : {u v w : World} → Idle u v → Idle v w → Idle u w
Idle-trans a b = record {
  mgr = b.mgr ∙ a.mgr;
  clock = omega (arith, a.clock, b.clock);
  each = λ r. Same-trans (a.each r) (b.each r);
}

pub Tracks-Idle : {v u : World} {o : Outcome} → Idle v u → Tracks u o → Tracks v o
Tracks-Idle i (tracks k t) = tracks (0 + k) (Tracked-trans 0 k (Idle-Tracked i) t)
Tracks-Idle i panics = panics
Tracks-Idle i runs_out = runs_out
