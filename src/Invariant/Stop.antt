-- ===== src/Invariant/Stop.antt =====
-- service.go `stopRecurse`: its conditions, its loop and its bound.
use govisor.Common.{
  ℕ, zero, suc, ◌<◌, String, true, false, ◌≡◌, sym, ap, subst, ◌∙◌, inl, inr, List, [], ◌∷◌, ◌++◌,
  arith, Bool-cases,
}
use govisor.Common.Refs.{Ref, contains, contains-append, contains-cons_self, contains-cons_tail}
use govisor.Common.Count.{count, count_mono, count-lt}
use govisor.World.{World, Env, Flags, Links, Outcome}
use govisor.Service.Runnable.{runnable, can_run}
use govisor.Service.Run.{each_child, stop_child, stop_step, stop_recurse, stopped}
use govisor.Invariant.Post.{Ensures, ensured, Ensures-bind, Ensures-mono, Ensures-for_each}
use govisor.Invariant.Neighbours.{View, view, view-can_run, can_run-runnable}
use govisor.Invariant.Frames.{
  is_active, StopFrame, StopFrame-refl, StopFrame-trans, SoundBut, SoundAround, marked,
  SoundBut-marked, SoundBut-cleared, Fair, Closed, Fixed, SoundBut-drop,
}

module _ (env : Env) (fair : Fair env) (v : View) (closed : Closed v.links v.services) where
  abbrev pub active_count : (Ref → Flags) → ℕ
  active_count f = count (λ r. is_active (f r)) v.services

  -- What `stopRecurse` is called with: `p` are the services still to be looked at by its callers,
  -- and `n` bounds the active services.
  pub record StopPre (n : ℕ) (s : Ref) (p : List Ref) (u : View) : Type 0 where
    pub fixed : Fixed v u
    pub rate : u.rate ≡ v.rate
    pub member : contains s v.services ≡ true
    pub sound : SoundAround v.links s p u.flags
    pub few : active_count u.flags < n

  -- What it leaves, called with the flags `f`.
  pub record StopPost (p : List Ref) (s : Ref) (f : Ref → Flags) (w : World) : Type 0 where
    pub fixed : Fixed v (view w)
    pub rate : w.rate ≡ v.rate
    pub frame : StopFrame f w.flags
    pub sound : SoundBut v.links p w.flags
    pub gone : is_active (w.flags s) ≡ false

  -- The invariant of the loop over the children, from the flags `f`; `rest` is left of it.
  record LoopInv (p : List Ref) (f : Ref → Flags) (rest : List Ref) (u : View) : Type 0 where
    fixed : Fixed v u
    rate : u.rate ≡ v.rate
    frame : StopFrame f u.flags
    sound : SoundBut v.links (rest ++ p) u.flags
    kids : (r : Ref) → contains r rest ≡ true → contains r v.services ≡ true

  -- A child that may run is done with.
  LoopInv-next :
      (p : List Ref) (f : Ref → Flags) (c : Ref) (rest : List Ref) (u : View)
      → LoopInv p f (c ∷ rest) u
      → runnable u.flags (u.links c) (u.flags c) ≡ true
      → LoopInv p f rest u
  unfolding contains
  LoopInv-next p f c rest u i ok = record {
    fixed = i.fixed;
    rate = i.rate;
    frame = i.frame;
    sound = λ r a. ground (arith, i.sound r a, ok, ap (λ (k : Ref → Links). k c) i.fixed.links);
    kids = λ r m. i.kids r (contains-cons_tail r c rest m);
  }

  active_mono :
      {f g : Ref → Flags}
      → StopFrame f g
      → (r : Ref) → is_active (g r) ≡ true
      → is_active (f r) ≡ true
  active_mono e r a = ground (arith, e.running r, e.stopping r)

  LoopInv-Pre :
      (n : ℕ) (p : List Ref) (f : Ref → Flags) (c : Ref) (rest : List Ref) (u : View)
      → active_count f < n
      → LoopInv p f (c ∷ rest) u
      → StopPre n c (rest ++ p) u
  LoopInv-Pre n p f c rest u few i = record {
    fixed = i.fixed;
    rate = i.rate;
    member = i.kids c (contains-cons_self c rest);
    sound = λ r a. elim (i.sound r a) [ inl ok ↦ inl ok | inr later ↦ inr (inl later) ];
    few = omega (
      arith,
      few,
      count_mono (λ r. is_active (f r)) (λ r. is_active (u.flags r)) (active_mono i.frame)
          v.services,
    );
  }

  LoopInv-Post :
      (p : List Ref) (f : Ref → Flags) (c : Ref) (rest : List Ref) (u : View) (w : World)
      → LoopInv p f (c ∷ rest) u
      → StopPost (rest ++ p) c u.flags w
      → LoopInv p f rest (view w)
  LoopInv-Post p f c rest u w i post = record {
    fixed = post.fixed;
    rate = post.rate;
    frame = StopFrame-trans i.frame post.frame;
    sound = post.sound;
    kids = λ r m. i.kids r (contains-cons_tail r c rest m);
  }

  -- The recursive call keeps its contract below `n` active services.
  abbrev Stops : ℕ → (Ref → World → Outcome) → Type 0
  Stops n stop =
      (c : Ref) (p : List Ref) (w : World)
      → StopPre n c p (view w)
      → Ensures (StopPost p c w.flags) (stop c w)

  stop_child-LoopInv :
      (n : ℕ) (stop : Ref → World → Outcome)
      → Stops n stop
      → (p : List Ref) (f : Ref → Flags) → active_count f < n
      → (c : Ref) (rest : List Ref) (w : World) → LoopInv p f (c ∷ rest) (view w)
      → Ensures (λ x. LoopInv p f rest (view x)) (stop_child env stop c w)
  unfolding stop_child
  stop_child-LoopInv n stop rec p f few c rest w i = elim (Bool-cases (can_run env c w).0) [
    | inl ok ↦ rw ok (
        ensured (
          subst (LoopInv p f rest) (sym (view-can_run env c w))
            (LoopInv-next p f c rest (view w) i (sym (can_run-runnable env c w) ∙ ok))))
    | inr bad ↦
        let j = subst (LoopInv p f (c ∷ rest)) (sym (view-can_run env c w)) i in
        rw bad (
          Ensures-mono (rec c (rest ++ p) (can_run env c w).1 (LoopInv-Pre n p f c rest _ few j))
            (λ x post. LoopInv-Post p f c rest _ x j post))
  ]

  -- The loop starts when the service is marked.
  LoopInv-start :
      (s : Ref) (p : List Ref) (n k : ℕ) (u : View)
      → StopPre n s p u
      → LoopInv p
          (marked s u.flags)
          (env.order k (u.links s).children)
          (record u { flags = marked s u.flags })
  LoopInv-start s p n k u pre = record {
    fixed = record {
      links = pre.fixed.links;
      props = pre.fixed.props;
      services = pre.fixed.services;
    };
    rate = pre.rate;
    frame = StopFrame-refl (marked s u.flags);
    sound = λ r a. ground (
      arith,
      SoundBut-marked v.links u.flags s (v.links s).children p (closed.dual s) pre.sound r a,
      contains-append r (env.order k (u.links s).children) p,
      fair k (u.links s).children r,
      ap (λ (l : Ref → Links). contains r (l s).children) pre.fixed.links,
    );
    kids = λ r m. closed.inside s r (
        sym (ap (λ (l : Ref → Links). contains r (l s).children) pre.fixed.links)
        ∙ sym (fair k (u.links s).children r)
        ∙ m);
  }

  -- And it ends when the service is cleared.
  StopPost-end :
      (s : Ref) (detail : String) (p : List Ref) (f : Ref → Flags) (w : World)
      → is_active (f s) ≡ true
      → LoopInv p (marked s f) [] (view w)
      → StopPost p s f (stopped env s detail w)
  unfolding stopped
  StopPost-end s detail p f w a i = record {
    fixed = record { links = i.fixed.links; props = i.fixed.props; services = i.fixed.services };
    rate = i.rate;
    frame = record {
      enabled = λ r. ground (arith, i.frame.enabled r);
      failed = λ r. ground (arith, i.frame.failed r);
      stopping = λ r. ground (arith, i.frame.stopping r);
      running = λ r h. ground (arith, i.frame.running r);
    };
    sound = SoundBut-cleared v.links w.flags s p (ground (arith, i.frame.stopping s)) i.sound;
    gone = ground arith;
  }

  stop_step-Post :
      (n : ℕ) (stop : Ref → World → Outcome)
      → Stops n stop
      → (s : Ref) (detail : String) (p : List Ref) (w : World) → StopPre (suc n) s p (view w)
      → Ensures (StopPost p s w.flags) (stop_step env stop s detail w)
  unfolding stop_step each_child
  stop_step-Post n stop rec s detail p w pre = elim (Bool-cases (is_active (w.flags s))) [
    | inl on ↦ rw on (
        Ensures-bind
          (Ensures-for_each (λ l x. LoopInv p (marked s w.flags) l (view x)) (stop_child env stop)
            (stop_child-LoopInv n stop rec p (marked s w.flags) (
              omega (
                arith,
                pre.few,
                count-lt (λ r. is_active (w.flags r)) (λ r. is_active (marked s w.flags r))
                    (λ r a. ground arith) s v.services pre.member on (ground arith),
              )))
            _ _ (LoopInv-start s p (suc n) w.tick (view w) pre))
          (λ x i. ensured (StopPost-end s detail p w.flags x on i)))
    | inr off ↦ rw off (
        ensured (record {
          fixed = pre.fixed;
          rate = pre.rate;
          frame = StopFrame-refl w.flags;
          sound = SoundBut-drop v.links s p w.flags off pre.sound;
          gone = off;
        }))
  ]

  pub stop_recurse-Post :
      (n : ℕ) (s : Ref) (detail : String) (p : List Ref) (w : World)
      → StopPre n s p (view w)
      → Ensures (StopPost p s w.flags) (stop_recurse env n s detail w)
  unfolding stop_recurse
  stop_recurse-Post zero s detail p w pre = absurd (omega (arith, pre.few))
  stop_recurse-Post (suc n) s detail p w pre =
      stop_step-Post n (λ c x. stop_recurse env n c "Unmet dependency" x)
        (λ c q x h. stop_recurse-Post n c "Unmet dependency" q x h) s detail p w pre
