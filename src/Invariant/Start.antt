-- ===== src/Invariant/Start.antt =====
-- service.go `startRecurse`: its conditions, its loop and its bound.
use govisor.Common.{
  ℕ, zero, suc, ◌<◌, String, true, false, not, ◌≡◌, sym, ap, subst, ◌∙◌, none, inl, inr, List, ◌∷◌,
  arith, Option-cases,
}
use govisor.Common.Refs.{Ref, contains, contains-cons_self, contains-cons_tail}
use govisor.Common.Count.{count, count_mono, count-lt}
use govisor.World.{World, Env, Flags, Links, Outcome}
use govisor.Service.Runnable.{runnable}
use govisor.Service.Run.{
  Attempt, attempt, each_child, launch, after_attempt, start_step, start_recurse, start_failed,
  started,
}
use govisor.Invariant.Post.{Ensures, ensured, Ensures-mono, Ensures-for_each}
use govisor.Invariant.Neighbours.{View, view}
use govisor.Invariant.Paced.{RateOk, Paced}
use govisor.Invariant.Frames.{Fair, Fixed, Fixed-trans, Closed}
use govisor.Service.Run.{called}
use govisor.Invariant.Attempt.{
  StartFrame, StartFrame-refl, StartFrame-trans, Sound, Sound-mono, Attempted, skipped, ready,
  attempt-Attempted, launched, broken, StartFrame-launched, launched_only, StartFrame-broken,
}

module _ (env : Env) (fair : Fair env) (v : View) (closed : Closed v.links v.services) where
  abbrev pub idle_count : (Ref → Flags) → ℕ
  idle_count f = count (λ r. not (f r).running) v.services

  -- What `startRecurse` is called with; `n` bounds the services that do not run.
  pub record StartPre (n : ℕ) (s : Ref) (u : View) : Type 0 where
    pub fixed : Fixed v u
    pub rates : (r : Ref) → RateOk (u.rate r)
    pub member : contains s v.services ≡ true
    pub sound : Sound v.links u.flags
    pub few : idle_count u.flags < n

  -- What it leaves, called with the flags `f`.
  pub record StartPost (f : Ref → Flags) (u : View) : Type 0 where
    pub fixed : Fixed v u
    pub rates : (r : Ref) → RateOk (u.rate r)
    pub frame : StartFrame f u.flags
    pub sound : Sound v.links u.flags

  record StartInv (f : Ref → Flags) (rest : List Ref) (u : View) : Type 0 where
    post : StartPost f u
    kids : (r : Ref) → contains r rest ≡ true → contains r v.services ≡ true

  abbrev Starts : ℕ → (Ref → World → Outcome) → Type 0
  Starts n start =
      (c : Ref) (w : World)
      → StartPre n c (view w)
      → Ensures (λ x. StartPost w.flags (view x)) (start c w)

  idle_mono :
      {f g : Ref → Flags}
      → StartFrame f g
      → (r : Ref) → not (g r).running ≡ true
      → not (f r).running ≡ true
  idle_mono e r a = ground (arith, e.running r)

  start_child-StartInv :
      (n : ℕ) (start : Ref → World → Outcome)
      → Starts n start
      → (f : Ref → Flags) → idle_count f < n
      → (c : Ref) (rest : List Ref) (w : World) → StartInv f (c ∷ rest) (view w)
      → Ensures (λ x. StartInv f rest (view x)) (start c w)
  start_child-StartInv n start rec f few c rest w i =
      Ensures-mono
        (rec c w (record {
          fixed = i.post.fixed;
          rates = i.post.rates;
          member = i.kids c (contains-cons_self c rest);
          sound = i.post.sound;
          few = omega (
            arith,
            few,
            count_mono (λ r. not (f r).running) (λ r. not (w.flags r).running)
                (idle_mono i.post.frame) v.services,
          );
        }))
        λ x post. record {
          post = record {
            fixed = post.fixed;
            rates = post.rates;
            frame = StartFrame-trans i.post.frame post.frame;
            sound = post.sound;
          };
          kids = λ r m. i.kids r (contains-cons_tail r c rest m);
        }

  -- The children of a service that the provider has started.
  children-Post :
      (n : ℕ) (start : Ref → World → Outcome)
      → Starts n start
      → (s : Ref) (detail : String) (w : World) → StartPre (suc n) s (view w)
      → (w.flags s).running ≡ false
      → runnable w.flags (w.links s) (w.flags s) ≡ true
      → Ensures
          (λ x. StartPost (launched s w.flags) (view x))
          (each_child env start s (started env s detail (called env s w)))
  unfolding each_child started
  children-Post n start rec s detail w pre off may =
      let may' : runnable w.flags (v.links s) (w.flags s) ≡ true =
        subst (λ (l : Ref → Links). runnable w.flags (l s) (w.flags s) ≡ true) pre.fixed.links
          may in
      Ensures-mono
        (Ensures-for_each (λ l x. StartInv (launched s w.flags) l (view x)) start
          (start_child-StartInv n start rec (launched s w.flags) (
            omega (
              arith,
              pre.few,
              count-lt (λ r. not (w.flags r).running) (λ r. not (launched s w.flags r).running)
                  (idle_mono (StartFrame-launched s w.flags off)) s v.services pre.member
                  (ground arith) (ground arith),
            )))
          _ _
          (record {
            post = record {
              fixed = record {
                links = pre.fixed.links;
                props = pre.fixed.props;
                services = pre.fixed.services;
              };
              rates = pre.rates;
              frame = StartFrame-refl (launched s w.flags);
              sound =
                  Sound-mono v.links w.flags (launched s w.flags) s
                    (StartFrame-launched s w.flags off) may' (launched_only s w.flags) pre.sound;
            };
            kids = λ r m. closed.inside s r (
                sym (ap (λ (l : Ref → Links). contains r (l s).children) pre.fixed.links)
                ∙ sym (fair _ (w.links s).children r)
                ∙ m);
          }))
        (λ x i. i.post)

  -- The provider is called for a service that does not run and may.
  launch-Post :
      (n : ℕ) (start : Ref → World → Outcome)
      → Starts n start
      → (s : Ref) (detail : String) (w : World) → StartPre (suc n) s (view w)
      → (w.flags s).running ≡ false
      → runnable w.flags (w.links s) (w.flags s) ≡ true
      → Ensures (λ x. StartPost w.flags (view x)) (launch env start s detail w)
  unfolding launch start_failed
  launch-Post n start rec s detail w pre off may =
      let may' : runnable w.flags (v.links s) (w.flags s) ≡ true =
        subst (λ (l : Ref → Links). runnable w.flags (l s) (w.flags s) ≡ true) pre.fixed.links
          may in
      elim (Option-cases (env.start_result w.tick s)) [
        | inr (e, failed) ↦
            rw (failed, launch)
              (ensured (record {
                fixed = record {
                  links = pre.fixed.links;
                  props = pre.fixed.props;
                  services = pre.fixed.services;
                };
                rates = pre.rates;
                frame = StartFrame-broken s w.flags off;
                sound =
                    Sound-mono v.links w.flags (broken s w.flags) s
                      (StartFrame-broken s w.flags off) may' (λ r on. ground arith) pre.sound;
              }))
        | inl ok ↦
            rw (ok, launch)
              (Ensures-mono (children-Post n start rec s detail w pre off may) (λ x post. record {
                fixed = post.fixed;
                rates = post.rates;
                frame = StartFrame-trans (StartFrame-launched s w.flags off) post.frame;
                sound = post.sound;
              }))
      ]

  -- If the provider starts the service, it runs, whatever its children do.
  pub launch-Runs :
      (n : ℕ) (start : Ref → World → Outcome)
      → Starts n start
      → (s : Ref) (detail : String) (w : World) → StartPre (suc n) s (view w)
      → (w.flags s).running ≡ false
      → runnable w.flags (w.links s) (w.flags s) ≡ true
      → env.start_result w.tick s ≡ none
      → Ensures (λ x. (x.flags s).running ≡ true) (launch env start s detail w)
  unfolding launch
  launch-Runs n start rec s detail w pre off may ok =
      rw (ok, launch)
        (Ensures-mono (children-Post n start rec s detail w pre off may)
          (λ x post. post.frame.running s (ground arith)))

  pub Paced-StartPre :
      (n : ℕ) (s : Ref) (w x : World) → StartPre n s (view w) → Paced w x → StartPre n s (view x)
  Paced-StartPre n s w x pre p = record {
    fixed =
        Fixed-trans pre.fixed (record { links = p.links; props = p.props; services = p.services });
    rates = p.rates;
    member = pre.member;
    sound = subst (Sound v.links) (sym p.flags) pre.sound;
    few = subst (λ (f : Ref → Flags). idle_count f < n) (sym p.flags) pre.few;
  }

  start_step-Post :
      (n : ℕ) (start : Ref → World → Outcome)
      → Starts n start
      → (s : Ref) (detail : String) (w : World) → StartPre (suc n) s (view w)
      → (a : Attempt) → Attempted w s a
      → Ensures (λ x. StartPost w.flags (view x)) (after_attempt env start s detail a)
  unfolding after_attempt
  start_step-Post n start rec s detail w pre _ (skipped {v = x} p) =
      let q = Paced-StartPre (suc n) s w x pre p in
      ensured (record {
        fixed = q.fixed;
        rates = q.rates;
        frame = subst (StartFrame w.flags) (sym p.flags) (StartFrame-refl w.flags);
        sound = q.sound;
      })
  start_step-Post n start rec s detail w pre _ (ready {v = x} p off may) =
      subst (λ (f : Ref → Flags). Ensures (λ y. StartPost f (view y)) (launch env start s detail x))
        p.flags
        (launch-Post n start rec s detail x (Paced-StartPre (suc n) s w x pre p)
          (ap (λ (f : Ref → Flags). (f s).running) p.flags ∙ off)
          (subst (λ (f : Ref → Flags). runnable f (x.links s) (f s) ≡ true) (sym p.flags)
            (subst (λ (l : Ref → Links). runnable w.flags (l s) (w.flags s) ≡ true) (sym p.links)
              may)))

  pub start_recurse-Post :
      (n : ℕ) (s : Ref) (detail : String) (w : World)
      → StartPre n s (view w)
      → Ensures (λ x. StartPost w.flags (view x)) (start_recurse env n s detail w)
  unfolding start_recurse start_step
  start_recurse-Post zero s detail w pre = absurd (omega (arith, pre.few))
  start_recurse-Post (suc n) s detail w pre =
      start_step-Post n (λ c x. start_recurse env n c "Dependency running" x)
        (λ c x h. start_recurse-Post n c "Dependency running" x h) s detail w pre (attempt env s w)
        (attempt-Attempted env s w pre.rates)
