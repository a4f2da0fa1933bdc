-- ===== src/Daemon/Enabled.antt =====
-- govisord/main.go: which services are enabled once the daemon has started.
use govisor.Common.{
  ℕ, suc, String, Bool, true, false, ◌||◌, if◌then◌else◌, ◌≡◌, refl, sym, ◌∙◌, subst, List, [], ◌∷◌,
  arith, Bool-cases, Option-cases, inl, inr, ◌==◌, ==_iff, Option,
}
use govisor.Common.Refs.{Ref, contains, contains-cons_self, contains-cons_tail}
use govisor.World.{World, Env, Props, Flags, Links}
use govisor.Service.Runnable.{any_enabled}
use govisor.Service.Api.{enable, admit, refuse, first_enabled}
use govisor.Manager.{start_monitoring}
use govisor.Machine.{new_manager}
use govisor.Machine.Safety.{new_manager-Inv}
use govisor.Invariant.Post.{Ensures, ensured, Ensures-mono, Ensures-bind, Ensures-for_each}
use govisor.Invariant.Neighbours.{view}
use govisor.Invariant.Frames.{Fair, Fixed-trans}
use govisor.Invariant.Quiet.{Inv, Lasting, Fixed-refl, start-Began}
use govisor.Invariant.Switch.{first_enabled-some, readied-Inv}
use govisor.Invariant.Calls.{recounted-Inv, free_of_none}
use govisor.Daemon.Start.{load_files-Safe, enable_all, start_up}

-- Whether a service is enabled, or one that it conflicts with is.
unfoldable pub is_decided : (Ref → Flags) → (Ref → Links) → Ref → Bool
is_decided f links s = (f s).enabled || any_enabled f (links s).incompat

unfoldable pub all_decided : (Ref → Flags) → (Ref → Links) → List Ref → Bool
unfolding is_decided
all_decided f links [] = true
all_decided f links (s ∷ ss) = if is_decided f links s then all_decided f links ss else false

contains-any_enabled :
    (f : Ref → Flags) (c : Ref) (cs : List Ref)
    → contains c cs ≡ true
    → (f c).enabled ≡ true
    → any_enabled f cs ≡ true
unfolding contains any_enabled
contains-any_enabled f c [] m on = ground (arith, m)
contains-any_enabled f c (x ∷ xs) m on = elim (Bool-cases (x == c)) [
  | inl e ↦ rw (subst (λ k. (f k).enabled ≡ true) (sym ((==_iff x c).0 e)) on) refl
  | inr e ↦ ground (arith, e, m, contains-any_enabled f c xs, on)
]

any_enabled_mono :
    (f g : Ref → Flags) (cs : List Ref)
    → ((r : Ref) → (f r).enabled ≡ true → (g r).enabled ≡ true)
    → any_enabled f cs ≡ true
    → any_enabled g cs ≡ true
unfolding any_enabled
any_enabled_mono f g [] h e = e
any_enabled_mono f g (c ∷ cs) h e = ground (arith, h c, e, any_enabled_mono f g cs h)

is_decided_mono :
    (f g : Ref → Flags) (l k : Ref → Links) (s : Ref)
    → k ≡ l
    → ((r : Ref) → (f r).enabled ≡ true → (g r).enabled ≡ true)
    → is_decided f l s ≡ true
    → is_decided g k s ≡ true
unfolding is_decided
is_decided_mono f g l k s same h e =
    subst (λ (m : Ref → Links). (g s).enabled || any_enabled g (m s).incompat ≡ true) (sym same)
      (ground (arith, h s, e, any_enabled_mono f g (l s).incompat h))

-- What Enable leaves.
record Decides (s : Ref) (v w : World) : Type 0 where
  inv : Inv (view w)
  fixed : Lasting v w
  kept : (r : Ref) → (v.flags r).enabled ≡ true → (w.flags r).enabled ≡ true
  decided : is_decided w.flags w.links s ≡ true

-- In the course of the loop: the services that were visited are decided.
record Course (v : World) (rs : List Ref) (w : World) : Type 0 where
  inv : Inv (view w)
  fixed : Lasting v w
  inside : (r : Ref) → contains r rs ≡ true → contains r v.services ≡ true
  decided :
      (r : Ref)
      → contains r v.services ≡ true
      → contains r rs ≡ false
      → is_decided w.flags w.links r ≡ true

module _ (env : Env) (fair : Fair env) where
  enable-Decides :
      (s : Ref) (w : World)
      → Inv (view w)
      → (w.links s).managed ≡ true
      → Ensures (Decides s w) (enable env s w).1
  unfolding enable refuse admit is_decided
  enable-Decides s w i member = elim (Bool-cases (w.flags s).enabled) [
    | inl on ↦
        rw (member, on)
          (ensured (record {
            inv = i;
            fixed = Fixed-refl (view w);
            kept = λ r h. h;
            decided = ground (arith, on);
          }))
    | inr off ↦
        rw (member, off)
          (elim (Option-cases (
            first_enabled (record w { tick = suc w.tick })
              (env.order w.tick (w.links s).incompat))) [
                | inr (c, e) ↦
                    let (m, on) = first_enabled-some (record w { tick = suc w.tick }) _ c e in
                    let any : any_enabled w.flags (w.links s).incompat ≡ true =
                      contains-any_enabled w.flags c (w.links s).incompat
                        (sym (fair w.tick (w.links s).incompat c) ∙ m) on in
                    rw e (
                      ensured (record {
                        inv = i;
                        fixed = record { links = refl; props = refl; services = refl };
                        kept = λ r h. h;
                        decided = ground (arith, any);
                      }))
                | inl e ↦
                    let v = admit env s (record w { tick = suc w.tick }) in
                    let j = recounted-Inv s _ (
                      readied-Inv s (view w) i (w.flags s).failed (free_of_none env fair s w e)
                        (λ h. h) member) in
                    rw e (
                      Ensures-mono (start-Began env fair s "Enabled service" v j member) (λ x p.
                        record {
                          inv = p.inv;
                          fixed = record {
                            links = p.fixed.links;
                            props = p.fixed.props;
                            services = p.fixed.services;
                          };
                          kept = λ r h. p.frame.enabled r ∙ ground (arith, h);
                          decided = ground (arith, p.frame.enabled s);
                        }))
              ])
  ]

  visit :
      (v : World) (s : Ref) (rs : List Ref) (w : World)
      → Course v (s ∷ rs) w
      → Ensures (Course v rs) (enable env s w).1
  unfolding contains
  visit v s rs w c =
      let here = c.inside s (contains-cons_self s rs) in
      let there = subst (λ (l : List Ref). contains s l ≡ true) (sym c.fixed.services) here in
      Ensures-mono (enable-Decides s w c.inv (c.inv.graph.managed s ∙ there)) (λ x d. record {
        inv = d.inv;
        fixed = Fixed-trans c.fixed d.fixed;
        inside = λ r h. c.inside r (contains-cons_tail r s rs h);
        decided = λ r m h. elim (Bool-cases (s == r)) [
          | inl e ↦ subst (λ k. is_decided x.flags x.links k ≡ true) ((==_iff s r).0 e) d.decided
          | inr e ↦
              is_decided_mono w.flags x.flags w.links x.links r d.fixed.links d.kept
                (c.decided r m (ground (arith, e, h)))
        ];
      })

  decided_list :
      (f : Ref → Flags) (l : Ref → Links) (ss : List Ref)
      → ((r : Ref) → contains r ss ≡ true → is_decided f l r ≡ true)
      → all_decided f l ss ≡ true
  unfolding all_decided
  decided_list f l [] h = refl
  decided_list f l (s ∷ ss) h =
      rw (h s (contains-cons_self s ss))
        (decided_list f l ss (λ r m. h r (contains-cons_tail r s ss m)))

  enable_all-decided :
      (w : World)
      → Inv (view w)
      → Ensures
          (λ x. Inv (view x) × (all_decided x.flags x.links x.services ≡ true))
          (enable_all env true w)
  unfolding enable_all contains
  enable_all-decided w i =
      Ensures-mono
        (Ensures-for_each (Course w) (λ s v. (enable env s v).1) (visit w)
          (env.order w.tick w.services) (record w { tick = suc w.tick })
          (record {
            inv = i;
            fixed = record { links = refl; props = refl; services = refl };
            inside = λ r h. sym (fair w.tick w.services r) ∙ h;
            decided = λ r m h. ground (arith, m, h, fair w.tick w.services r);
          }))
        (λ x c. (
          c.inv,
          subst (λ (l : List Ref). all_decided x.flags x.links l ≡ true) (sym c.fixed.services)
              (decided_list x.flags x.links w.services (λ r m. c.decided r m refl)),
        ))

  -- For providers whose calls return, with nil or any error, a clock and map orders of any kind
  -- (an order only has to visit just what is in the map): from the state of NewManager, the
  -- start of the daemon with the services enabled, which adds a service for each manifest that
  -- can be read, starts monitoring and enables the services in the order of a map, returns and
  -- leaves the invariant, and each service of the manager is enabled or conflicts with one that
  -- is.
  pub start_up-decided :
      (files : List (Option Ref)) (props : Ref → Props) (name : String) (now : ℕ)
      → Ensures
          (λ x. Inv (view x) × (all_decided x.flags x.links x.services ≡ true))
          (start_up env true files (new_manager props name now))
  unfolding start_up start_monitoring
  start_up-decided files props name now =
      Ensures-bind (load_files-Safe env fair files _ (new_manager-Inv props name now))
        (λ v j. enable_all-decided (start_monitoring env v) j)
