-- ===== src/Invariant/Post.antt =====
-- Postconditions of operations, with a rule for each way of composing them.
use govisor.Common.{List, [], ◌∷◌}
use govisor.Common.Refs.{Ref}
use govisor.World.{World, Outcome, done, ◌>>=◌, for_each}

-- The operation returns, and the world that it returns satisfies `P`.
pub data Ensures (P : World → Type 0) : Outcome → Type 0 where
  ensured : {w : World} → P w → Ensures P (done w)

pub Ensures-bind :
    {P Q : World → Type 0} {o : Outcome} {f : World → Outcome}
    → Ensures P o
    → ((w : World) → P w → Ensures Q (f w))
    → Ensures Q (o >>= f)
Ensures-bind (ensured {w} p) k = k w p

pub Ensures-mono :
    {P Q : World → Type 0} {o : Outcome} → Ensures P o → ((w : World) → P w → Q w) → Ensures Q o
Ensures-mono (ensured {w} p) k = ensured (k w p)

-- A loop, by an invariant of the elements left and the world.
pub Ensures-for_each :
    (I : List Ref → World → Type 0) (f : Ref → World → Outcome)
    → ((r : Ref) (rs : List Ref) (w : World) → I (r ∷ rs) w → Ensures (I rs) (f r w))
    → (l : List Ref) (w : World) → I l w
    → Ensures (I []) (for_each f l w)
unfolding for_each
Ensures-for_each I f step [] w h = ensured h
Ensures-for_each I f step (r ∷ rs) w h =
    Ensures-bind (step r rs w h) (λ v i. Ensures-for_each I f step rs v i)
