-- ===== src/SetOnce/Examples.antt =====
-- Runs of a value that is set once.
use aether_agent.Prelude.{ℕ, ◌+◌, ◌≡◌, refl, List, [], ◌∷◌, some, none, false}
use aether_agent.SetOnce.{
  Outcome, Move, start_set, start_wait, go_on, step, run, initial, new_set_once, advance,
  lock_and_set, result, wait_returned,
}
use aether_agent.SetOnce.Interleavings.{Settled, Keeps}
use aether_agent.SetOnce.Winner.{wins, is_set, one_if, run-Decided}

abbrev value : ℕ → Outcome ℕ ℕ
value n = record { value = n; error = none }

-- Two sets pass the select before either locks, and a third goroutine waits.
abbrev race : List (Move ℕ ℕ)
race =
    start_wait 0
    ∷ start_set 1 (value 7)
    ∷ start_set 2 (value 8)
    ∷ go_on 1 false
    ∷ go_on 2 false
    ∷ go_on 2 false
    ∷ go_on 1 false
    ∷ go_on 0 false
    ∷ go_on 1 false
    ∷ go_on 0 false
    ∷ []

race_start : Settled (initial {A = ℕ} {E = ℕ})
unfolding initial new_set_once
race_start = record { done_set = λ e. cc; seen = λ t. tt }

run-Decided_example :
    Settled (run race initial)
    × Keeps (initial {A = ℕ} {E = ℕ}).once (run race initial).once
    × (wins race initial + one_if (is_set (initial {A = ℕ} {E = ℕ}).once)
        ≡ one_if (is_set (run race initial).once))
run-Decided_example = run-Decided race initial race_start

-- The waiting goroutine gets the value of the set that locked first.
race_waited : (run race (initial {A = ℕ} {E = ℕ})).calls 0 ≡ wait_returned (some (value 8))
unfolding run step initial new_set_once advance lock_and_set result
race_waited = refl
