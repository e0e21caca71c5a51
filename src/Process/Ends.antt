-- ===== src/Process/Ends.antt =====
-- internal/sysop/proc.go: ending a process comes to an end itself.
use gsm_system.Base.{
  ℕ, zero, suc, ◌+◌, ◌*◌, ◌/◌, ◌≤◌, ◌<◌, ◌≡◌, refl, Bool, true, false, not, [], ◌∷◌, Option, none,
  some, ltb, ltb→lt, if◌then◌else◌, inl, inr, ◌⊎◌, arith,
}
use gsm_system.Base.Text.{Text}
use gsm_system.Process.{
  pid_alive, term, kill, Rounds, Polled, gone, expired, poll, Kill, kill_after, kill_pid,
}

-- The loop with enough fuel ends; with `gone` some round before the deadline saw no process, and
-- with `expired` every round that was made saw one.
abbrev pub Ended : ℕ → Rounds → ℕ → Option Polled → Type 0
Ended deadline r i none = ⊥
Ended deadline r i (some gone) =
    (j : ℕ) × (i ≤ j) × (r.now j < deadline) × (pid_alive (r.stat j) ≡ false)
Ended deadline r i (some expired) = (j : ℕ) × (i ≤ j) × (deadline ≤ r.now j)

module _ (deadline : ℕ) (r : Rounds) (sleeps : (i : ℕ) → r.now i + 200 ≤ r.now (suc i)) where
  later : (i : ℕ) (o : Option Polled) → Ended deadline r (suc i) o → Ended deadline r i o
  later i (some gone) (j, l, n, d) = (j, omega arith, n, d)
  later i (some expired) (j, l, n) = (j, omega arith, n)
  later i none h = h

  by_test :
      (i : ℕ) (before alive : Bool) (rest : Option Polled)
      → ltb (r.now i) deadline ≡ before
      → pid_alive (r.stat i) ≡ alive
      → (r.now i < deadline → Ended deadline r i rest)
      → Ended deadline r i (if before then if alive then rest else some gone else some expired)
  by_test i true true rest b a f = f (ltb→lt (r.now i) deadline b)
  by_test i true false rest b a f = (i, omega arith, ltb→lt (r.now i) deadline b, a)
  by_test i false alive rest b a f = (i, omega arith, ground arith)

  poll-Ended :
      (fuel i : ℕ)
      → deadline ≤ r.now i + 200 * fuel
      → Ended deadline r i (poll (suc fuel) deadline r i)
  unfolding poll
  poll-Ended zero i h =
      by_test i (ltb (r.now i) deadline) (pid_alive (r.stat i)) none refl refl (λ l. omega arith)
  poll-Ended (suc fuel) i h =
      by_test i (ltb (r.now i) deadline) (pid_alive (r.stat i)) (poll (suc fuel) deadline r (suc i))
        refl refl
        (λ l.
          later i (poll (suc fuel) deadline r (suc i))
            (poll-Ended fuel (suc i) (omega (arith, sleeps i))))

-- What a finished `killPID` has seen and sent.
abbrev pub IsKilled : ℕ → Rounds → Option Text → Option Kill → Type 0
IsKilled deadline r last none = ⊥
IsKilled deadline r last (some k) =
    ((k.ended ≡ true)
      × (k.signals ≡ term ∷ [])
      × ((j : ℕ) × (r.now j < deadline) × (pid_alive (r.stat j) ≡ false)))
    ⊎ ((k.ended ≡ not (pid_alive last))
        × (k.signals ≡ term ∷ (kill ∷ []))
        × ((j : ℕ) × (deadline ≤ r.now j)))

Ended-IsKilled :
    (deadline : ℕ) (r : Rounds) (last : Option Text) (o : Option Polled)
    → Ended deadline r 0 o
    → IsKilled deadline r last (kill_after last o)
Ended-IsKilled deadline r last (some gone) (j, l, n, d) = inl (refl, refl, (j, n, d))
Ended-IsKilled deadline r last (some expired) (j, l, n) = inr (refl, refl, (j, n))
Ended-IsKilled deadline r last none h = absurd h

-- If the clock is past the start when the polling begins and each round sleeps for 200 ms, then
-- ending a process returns within timeout / 200 + 2 rounds, whatever ps gives: it returns true
-- after TERM alone, and ps showed no living process before the deadline; or the deadline came, KILL
-- was sent too, and it returns whether ps shows no living process after that.
pub kill_pid-IsKilled :
    (timeout started : ℕ) (r : Rounds) (last : Option Text)
    → started ≤ r.now 0
    → ((i : ℕ) → r.now i + 200 ≤ r.now (suc i))
    → IsKilled
        (started + timeout)
        r
        last
        (kill_pid (suc (suc (timeout / 200))) timeout started r last)
unfolding kill_pid
kill_pid-IsKilled timeout started r last s sleeps =
    Ended-IsKilled (started + timeout) r last
      (poll (suc (suc (timeout / 200))) (started + timeout) r 0)
      (poll-Ended (started + timeout) r sleeps (suc (timeout / 200)) 0 (omega arith))
