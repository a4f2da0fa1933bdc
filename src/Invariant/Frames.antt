-- ===== src/Invariant/Frames.antt =====
-- What a stop does to the flags, and which services it may leave unsound until it is done.
use govisor.Common.{
  ℕ, Bool, true, false, not, ◌&&◌, ◌≡◌, refl, ◌∙◌, ◌⊎◌, inl, inr, List, ◌∷◌, arith, Bool-cases,
}
use govisor.Common.Refs.{Ref, contains}
use govisor.World.{Env, Flags, Links, put}
use govisor.Service.Runnable.{runnable}
use govisor.Invariant.Neighbours.{View, in_groups, runnable-eq}

-- `s.running && !s.stopping`
abbrev pub is_active : Flags → Bool
is_active f = f.running && not f.stopping

-- What a stop does to the flags of the others: it may only clear `running`.
pub record StopFrame (f g : Ref → Flags) : Type 0 where
  pub enabled : (r : Ref) → (g r).enabled ≡ (f r).enabled
  pub failed : (r : Ref) → (g r).failed ≡ (f r).failed
  pub stopping : (r : Ref) → (g r).stopping ≡ (f r).stopping
  pub running : (r : Ref) → (g r).running ≡ true → (f r).running ≡ true

pub StopFrame-refl : (f : Ref → Flags) → StopFrame f f
StopFrame-refl f = record {
  enabled = λ r. refl;
  failed = λ r. refl;
  stopping = λ r. refl;
  running = λ r h. h;
}

pub StopFrame-trans : {f g h : Ref → Flags} → StopFrame f g → StopFrame g h → StopFrame f h
StopFrame-trans a b = record {
  enabled = λ r. b.enabled r ∙ a.enabled r;
  failed = λ r. b.failed r ∙ a.failed r;
  stopping = λ r. b.stopping r ∙ a.stopping r;
  running = λ r h. a.running r (b.running r h);
}

-- Each active service may run, but for those of the list.
abbrev pub SoundBut : (Ref → Links) → List Ref → (Ref → Flags) → Type 0
SoundBut links p f =
    (r : Ref) → is_active (f r) ≡ true → (runnable f (links r) (f r) ≡ true) ⊎ (contains r p ≡ true)

-- The same when `s` is about to stop: its children need not be sound either, if it is active.
abbrev pub SoundAround : (Ref → Links) → Ref → List Ref → (Ref → Flags) → Type 0
SoundAround links s p f =
    (r : Ref)
    → is_active (f r) ≡ true
    → (runnable f (links r) (f r) ≡ true)
      ⊎ (contains r (s ∷ p) ≡ true)
      ⊎ ((is_active (f s) ≡ true) × (in_groups s (links r).parents ≡ true))

abbrev pub marked : Ref → (Ref → Flags) → Ref → Flags
marked s f = put f s (record (f s) { stopping = true })

abbrev pub cleared : Ref → (Ref → Flags) → Ref → Flags
cleared s f = put f s (record (f s) { running = false; stopping = false })

-- Marking a service as stopping can unsettle its children only.
pub SoundBut-marked :
    (links : Ref → Links) (f : Ref → Flags) (s : Ref) (kids p : List Ref)
    → ((t : Ref) → in_groups s (links t).parents ≡ true → contains t kids ≡ true)
    → SoundAround links s p f
    → (r : Ref) → is_active (marked s f r) ≡ true
    → (runnable (marked s f) (links r) (marked s f r) ≡ true)
      ⊎ (contains r kids ≡ true)
      ⊎ (contains r p ≡ true)
unfolding contains
SoundBut-marked links f s kids p dual h r active =
    elim (Bool-cases (in_groups s (links r).parents)) [
      | inl child ↦ inr (inl (dual r child))
      | inr other ↦ ground (
        arith,
        runnable-eq f (marked s f) (links r) r (λ d m. ground arith) (λ c. ground arith),
        h r,
      )
    ]

-- Clearing a service that is stopping unsettles nobody.
pub SoundBut-cleared :
    (links : Ref → Links) (f : Ref → Flags) (s : Ref) (p : List Ref)
    → (f s).stopping ≡ true
    → SoundBut links p f
    → SoundBut links p (cleared s f)
SoundBut-cleared links f s p h sound r active = ground (
  arith,
  runnable-eq f (cleared s f) (links r) r (λ d m. ground arith) (λ c. ground arith),
  sound r,
)

-- The map ranged over has the same elements in any order.
abbrev pub Fair : Env → Type 0
Fair env = (t : ℕ) (l : List Ref) (r : Ref) → contains r (env.order t l) ≡ contains r l

-- The children of a service are exactly kept, as far as a stop needs it.
pub record Closed (links : Ref → Links) (services : List Ref) : Type 0 where
  pub dual :
      (s t : Ref) → in_groups s (links t).parents ≡ true → contains t (links s).children ≡ true
  pub inside : (s t : Ref) → contains t (links s).children ≡ true → contains t services ≡ true

-- The columns that neither a start nor a stop writes.
pub record Fixed (v w : View) : Type 0 where
  pub links : w.links ≡ v.links
  pub props : w.props ≡ v.props
  pub services : w.services ≡ v.services

pub Fixed-trans : {u v w : View} → Fixed u v → Fixed v w → Fixed u w
Fixed-trans a b = record {
  links = b.links ∙ a.links;
  props = b.props ∙ a.props;
  services = b.services ∙ a.services;
}

-- A service that is not active needs no looking at.
pub SoundBut-drop :
    (links : Ref → Links) (s : Ref) (p : List Ref) (f : Ref → Flags)
    → is_active (f s) ≡ false
    → SoundAround links s p f
    → SoundBut links p f
unfolding contains
SoundBut-drop links s p f off sound r a = ground (arith, sound r a)
