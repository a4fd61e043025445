-- ===== src/Prelude/Loop.antt =====
-- A `for` loop with a test, on fuel, and its invariant rule.
use Prim.Native.Nat.{ℕ, zero, suc, ◌<◌}
use mathlib.Core.Path.{◌≡◌}
use mathlib.Core.Bool.{Bool, true, false}
use native.Mathlib.Omega.{arith}

module _ {ℓ} {State : Type ℓ} (continues : State → Bool) (step : State → State) where
  -- At most so many rounds, each of them behind the test.
  unfoldable pub run_loop : ℕ → State → State
  run_loop zero now = now
  run_loop (suc rounds) now = elim (continues now) [
    | false ↦ now
    | true ↦ run_loop rounds (step now)
  ]

  -- What a round keeps holds at the end, and the end is by the test, where each round takes from a
  -- number that starts below the rounds.
  pub run_loop-ends {κ} :
      (Holds : State → Type κ) (left : State → ℕ)
      → ((now : State)
          → continues now ≡ true
          → Holds now
          → (left (step now) < left now) × Holds (step now))
      → (rounds : ℕ) (now : State) → Holds now
      → left now < rounds
      → (continues (run_loop rounds now) ≡ false) × Holds (run_loop rounds now)
  unfolding run_loop
  run_loop-ends Holds left round zero now holds few = absurd (omega arith)
  run_loop-ends Holds left round (suc rounds) now holds few =
      ground (arith, round now, run_loop-ends Holds left round rounds (step now))
