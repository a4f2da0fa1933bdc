-- ===== src/Watch.antt =====
-- manager.go `watchSerial`, log.go `Watch`: a goroutine that waits for a number to change. Each has a
-- condition variable of its own, so one of them stands for all.
mod Tests
use govisor.Common.{
  ℕ, ◌==◌, ==_iff, ltb, Bool, true, false, not, ◌||◌, ◌≡◌, ◌≢◌, refl, sym, ◌∙◌, ◌⊎◌, inl, inr,
  if◌then◌else◌, arith, Bool-cases,
}
use govisor.World.{ℤ, pos, negsuc}

-- Where the goroutine is: before the lock, in `Wait`, woken but without the lock, or back with a number.
pub data Phase : Type 0 where
  entering asleep woken : Phase
  back : ℕ → Phase

-- `number` is what is waited for.
pub record Watch : Type 0 where
  pub number : ℕ
  pub expired : Bool
  pub phase : Phase

-- Whether there is a timer.
abbrev pub positive : ℤ → Bool
positive (pos n) = ltb 0 n
positive (negsuc n) = false

-- A call with a time to wait, as the number is.
unfoldable pub begin : ℤ → ℕ → Watch
begin expire n = record { number = n; expired = not (positive expire); phase = entering }

-- `cv.Broadcast()`
abbrev pub broadcast : Phase → Phase
broadcast asleep = woken
broadcast p = p

-- The body of the loop, under the lock: a return, or a wait.
unfoldable pub look : ℕ → Watch → Watch
look old s =
    if not (s.number == old) || s.expired
    then record s { phase = back s.number }
    else record s { phase = asleep }

-- The timer.
unfoldable pub expire : Watch → Watch
expire s = record s { expired = true; phase = broadcast s.phase }

-- A call that changes numbers and then wakes all that wait, under one lock: `bumpSerial` and what its
-- number is stored in, or `Write` of a log.
unfoldable pub change : ℕ → Watch → Watch
change n s = record s { number = n; phase = broadcast s.phase }

-- Whether the goroutine runs when it has the lock.
abbrev pub runs : Phase → Bool
runs entering = true
runs woken = true
runs p = false

pub data Step (old : ℕ) : Watch → Watch → Type 0 where
  looks : {s : Watch} → runs s.phase ≡ true → Step old s (look old s)
  expires : {s : Watch} → Step old s (expire s)
  changes : {s : Watch} (n : ℕ) → Step old s (change n s)

-- What can come of a call, in any order of the steps.
pub data Reach (old : ℕ) (s : Watch) : Watch → Type 0 where
  here : Reach old s s
  next : {t u : Watch} → Reach old s t → Step old t u → Reach old s u

-- One that sleeps has nothing to report, and one that is back has.
record Alert (old : ℕ) (s : Watch) : Type 0 where
  calm : s.phase ≡ asleep → (s.number ≡ old) × (s.expired ≡ false)
  due : (n : ℕ) → s.phase ≡ back n → (n ≢ old) ⊎ (s.expired ≡ true)

broadcast-asleep : (p : Phase) → broadcast p ≢ asleep
broadcast-asleep asleep e = ground (arith, e)
broadcast-asleep entering e = ground (arith, e)
broadcast-asleep woken e = ground (arith, e)
broadcast-asleep (back n) e = ground (arith, e)

broadcast-back : (p : Phase) (n : ℕ) → broadcast p ≡ back n → p ≡ back n
broadcast-back asleep n e = ground (arith, e)
broadcast-back entering n e = e
broadcast-back woken n e = e
broadcast-back (back m) n e = e

look-Alert : (old : ℕ) (s : Watch) → Alert old (look old s)
unfolding look
look-Alert old s = elim (Bool-cases (not (s.number == old) || s.expired)) [
  | inl e ↦
      rw (e, look)
        (record {
          calm = λ h. ground (arith, h);
          due = λ n h. elim (Bool-cases s.expired) [
            | inl f ↦ inr f
            | inr f ↦ inl (λ g. ground (arith, e, f, g, h, ==_iff s.number old))
          ];
        })
  | inr e ↦
      rw (e, look)
        (record {
          calm = λ h. ground (arith, e, ==_iff s.number old);
          due = λ n h. ground (arith, h);
        })
]

Step-Alert : {old : ℕ} {s t : Watch} → Step old s t → Alert old s → Alert old t
unfolding expire change
Step-Alert (looks {s} h) a = look-Alert _ s
Step-Alert (expires {s}) a = record {
  calm = λ h. absurd (broadcast-asleep s.phase h);
  due = λ n h. inr refl;
}
Step-Alert (changes {s} n) a = record {
  calm = λ h. absurd (broadcast-asleep s.phase h);
  due = λ m h. a.due m (broadcast-back s.phase m h);
}

Reach-Alert : {old : ℕ} {s t : Watch} → Alert old s → Reach old s t → Alert old t
Reach-Alert a here = a
Reach-Alert a (next r st) = Step-Alert st (Reach-Alert a r)

-- For any order of looks at the number, changes that wake all that wait, and the end of the
-- time: a goroutine in watchSerial, or in the Watch of a log that is written to, sleeps only
-- while the number is the old one and its time is not over, and is back only with a number that
-- is not the old one or once its time is over.
pub watch-Reach :
    (old n : ℕ) (d : ℤ) {s : Watch}
    → Reach old (begin d n) s
    → (s.phase ≡ asleep → (s.number ≡ old) × (s.expired ≡ false))
      × ((m : ℕ) → s.phase ≡ back m → (m ≢ old) ⊎ (s.expired ≡ true))
unfolding begin
watch-Reach old n d r =
    let a =
      Reach-Alert (record { calm = λ h. ground (arith, h); due = λ m h. ground (arith, h) }) r in
    (a.calm, a.due)
