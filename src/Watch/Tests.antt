-- ===== src/Watch/Tests.antt =====
-- A goroutine that waits for a change.
use govisor.Common.{ℕ, true, false, ◌≡◌, ◌≢◌, refl, ◌⊎◌}
use govisor.World.{pos}
use govisor.Watch.{
  begin, look, change, asleep, back, Reach, here, next, looks, changes, watch-Reach,
}

-- It looks, sleeps, is woken by another number, and looks again.
woken_up : Reach 7 (begin (pos 5) 7) (look 7 (change 8 (look 7 (begin (pos 5) 7))))
unfolding begin look change
woken_up = next (next (next here (looks refl)) (changes 8)) (looks refl)

watch-Reach_example :
    ((look 7 (change 8 (look 7 (begin (pos 5) 7)))).phase ≡ asleep
      → ((look 7 (change 8 (look 7 (begin (pos 5) 7)))).number ≡ 7)
        × ((look 7 (change 8 (look 7 (begin (pos 5) 7)))).expired ≡ false))
    × ((m : ℕ)
        → (look 7 (change 8 (look 7 (begin (pos 5) 7)))).phase ≡ back m
        → (m ≢ 7) ⊎ ((look 7 (change 8 (look 7 (begin (pos 5) 7)))).expired ≡ true))
watch-Reach_example = watch-Reach 7 7 (pos 5) woken_up
