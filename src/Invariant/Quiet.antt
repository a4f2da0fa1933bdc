-- ===== src/Invariant/Quiet.antt =====
-- The invariant between two operations, and the calls of `startRecurse` and `stopRecurse` from it.
use mathlib.Core.Path.{subst₂}
use govisor.Common.{
  suc, String, true, false, ◌≡◌, refl, sym, ap, subst, ◌∙◌, ◌⊎◌, inl, inr, List, [], arith, length,
}
use govisor.Common.Refs.{Ref, contains}
use govisor.Common.Count.{count-le-length}
use govisor.World.{World, Env, Flags, Links, Props, Rate}
use govisor.Service.Run.{start, stop}
use govisor.Invariant.Post.{Ensures, Ensures-mono}
use govisor.Invariant.Neighbours.{View, view}
use govisor.Invariant.Graph.{IsGraph}
use govisor.Invariant.Paced.{RateOk}
use govisor.Invariant.Frames.{Fair, Fixed, Closed, StopFrame, SoundAround}
use govisor.Invariant.Stop.{stop_recurse-Post}
use govisor.Invariant.Attempt.{StartFrame, Sound}
use govisor.Invariant.Start.{StartPre, start_recurse-Post}

pub IsGraph-Closed :
    {ps : Ref → Props} {l : Ref → Links} {ss : List Ref} → IsGraph ps l ss → Closed l ss
IsGraph-Closed g = record { dual = λ s t h. sym (g.dual s t) ∙ h; inside = g.inside }

-- No two conflicting services are enabled.
abbrev pub Exclusive : (Ref → Links) → (Ref → Flags) → Type 0
Exclusive links f =
    (s t : Ref)
    → (f s).enabled ≡ true
    → contains t (links s).incompat ≡ true
    → (f t).enabled ≡ false

-- Between two operations: every running service is enabled, has its dependencies met by services
-- that are up, and no conflicting service is enabled; none is in the course of stopping.
pub record Inv (u : View) : Type 0 where
  pub graph : IsGraph u.props u.links u.services
  pub sound : Sound u.links u.flags
  pub still : (r : Ref) → (u.flags r).stopping ≡ false
  pub healthy : (r : Ref) → (u.flags r).running ≡ true → (u.flags r).failed ≡ false
  pub exclusive : Exclusive u.links u.flags
  pub detached : (r : Ref) → (u.links r).managed ≡ false → (u.flags r).enabled ≡ false
  pub rates : (r : Ref) → RateOk (u.rate r)

abbrev pub Lasting : World → World → Type 0
Lasting v w = Fixed (view v) (view w)

-- What a start leaves.
pub record Began (v w : World) : Type 0 where
  pub inv : Inv (view w)
  pub fixed : Lasting v w
  pub frame : StartFrame v.flags w.flags

-- What a stop of `s` leaves.
pub record Ended (s : Ref) (v w : World) : Type 0 where
  pub inv : Inv (view w)
  pub fixed : Lasting v w
  pub frame : StopFrame v.flags w.flags
  pub gone : (w.flags s).running ≡ false

-- What a stop of `s` wants: the invariant, but for `s` and its children while `s` runs.
pub record Ending (s : Ref) (u : View) : Type 0 where
  pub graph : IsGraph u.props u.links u.services
  pub sound : SoundAround u.links s [] u.flags
  pub still : (r : Ref) → (u.flags r).stopping ≡ false
  pub healthy : (r : Ref) → (u.flags r).running ≡ true → (r ≡ s) ⊎ ((u.flags r).failed ≡ false)
  pub exclusive : Exclusive u.links u.flags
  pub detached : (r : Ref) → (u.links r).managed ≡ false → (u.flags r).enabled ≡ false
  pub rates : (r : Ref) → RateOk (u.rate r)

-- The graph lasts while its columns do.
pub Fixed-IsGraph :
    {u v : View}
    → Fixed u v
    → IsGraph u.props u.links u.services
    → IsGraph v.props v.links v.services
Fixed-IsGraph {u} {v} e g =
    subst (λ p. IsGraph p v.links v.services) (sym e.props)
      (subst₂ (IsGraph u.props) (sym e.links) (sym e.services) g)

pub Exclusive-eq :
    {l k : Ref → Links} (f g : Ref → Flags)
    → k ≡ l
    → ((r : Ref) → (g r).enabled ≡ (f r).enabled)
    → Exclusive l f
    → Exclusive k g
Exclusive-eq f g e en x =
    subst (λ (m : Ref → Links). Exclusive m g) (sym e)
      (λ s t on m. en t ∙ x s t (sym (en s) ∙ on) m)

pub Fixed-refl : (u : View) → Fixed u u
Fixed-refl u = record { links = refl; props = refl; services = refl }

module _ (env : Env) (fair : Fair env) where
  pub Inv-StartPre :
      (s : Ref) (w : World) (i : Inv (view w))
      → (w.links s).managed ≡ true
      → StartPre env fair (view w) (IsGraph-Closed i.graph) (suc (length w.services)) s (view w)
  Inv-StartPre s w i m = record {
    fixed = Fixed-refl (view w);
    rates = i.rates;
    member = sym (i.graph.managed s) ∙ m;
    sound = i.sound;
    few = omega (arith, count-le-length _ w.services);
  }

  pub start-Began :
      (s : Ref) (detail : String) (w : World)
      → Inv (view w)
      → (w.links s).managed ≡ true
      → Ensures (Began w) (start env s detail w)
  unfolding start
  start-Began s detail w i m =
      Ensures-mono
        (start_recurse-Post env fair (view w) (IsGraph-Closed i.graph) (suc (length w.services)) s
          detail w (Inv-StartPre s w i m))
        λ x post. record {
          inv = record {
            graph = Fixed-IsGraph post.fixed i.graph;
            sound = subst (λ (l : Ref → Links). Sound l x.flags) (sym post.fixed.links) post.sound;
            still = λ r. post.frame.stopping r ∙ i.still r;
            healthy =
                λ r on. ground (arith, post.frame.fresh r on, post.frame.failed r, i.healthy r);
            exclusive =
                Exclusive-eq w.flags x.flags post.fixed.links post.frame.enabled i.exclusive;
            detached = λ r h.
                post.frame.enabled r
                ∙ i.detached r (ap (λ (l : Ref → Links). (l r).managed) (sym post.fixed.links) ∙ h);
            rates = post.rates;
          };
          fixed = post.fixed;
          frame = post.frame;
        }

  pub stop-Ended :
      (s : Ref) (detail : String) (w : World)
      → Ending s (view w)
      → (w.links s).managed ≡ true
      → Ensures (Ended s w) (stop env s detail w)
  unfolding stop contains
  stop-Ended s detail w i m =
      Ensures-mono
        (stop_recurse-Post env fair (view w) (IsGraph-Closed i.graph) (suc (length w.services)) s
          detail [] w
          (record {
            fixed = Fixed-refl (view w);
            rate = refl;
            member = sym (i.graph.managed s) ∙ m;
            sound = i.sound;
            few = omega (arith, count-le-length _ w.services);
          }))
        λ x post. record {
          inv = record {
            graph = Fixed-IsGraph post.fixed i.graph;
            sound =
                subst (λ (l : Ref → Links). Sound l x.flags) (sym post.fixed.links)
                  λ r on. ground (arith, post.sound r, post.frame.stopping r, i.still r);
            still = λ r. post.frame.stopping r ∙ i.still r;
            healthy = λ r on. elim (i.healthy r (post.frame.running r on)) [
              | inl same ↦ ground (
                arith,
                post.gone,
                same,
                post.frame.stopping s,
                i.still s,
                ap (λ k. x.flags k) same,
              )
              | inr well ↦ post.frame.failed r ∙ well
            ];
            exclusive =
                Exclusive-eq w.flags x.flags post.fixed.links post.frame.enabled i.exclusive;
            detached = λ r h.
                post.frame.enabled r
                ∙ i.detached r (ap (λ (l : Ref → Links). (l r).managed) (sym post.fixed.links) ∙ h);
            rates = subst (λ (k : Ref → Rate). (r : Ref) → RateOk (k r)) (sym post.rate) i.rates;
          };
          fixed = post.fixed;
          frame = post.frame;
          gone = ground (arith, post.gone, post.frame.stopping s, i.still s);
        }
