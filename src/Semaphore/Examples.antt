-- ===== src/Semaphore/Examples.antt =====
-- Runs of the semaphore.
use aether_agent.Prelude.{
  ◌+◌, ◌≡◌, refl, List, [], ◌∷◌, some, false, arith, add64, sub64, lt64, is_positive64,
}
use aether_agent.Semaphore.{
  AdjustableSemaphore, Move, acquire_move, try_move, limit_move, release_move, step, run,
  try_acquire, acquire_round, set_limit, release, is_over, take_slots,
}
use aether_agent.Semaphore.Holdings.{Within, run_takes, run_gives, AreDecided, run-run_takes}

abbrev three_of_five : AdjustableSemaphore
three_of_five = record { used = 3; limit = 5 }

-- The limit falls below what is held, and nothing is taken until enough is released.
abbrev shrinking : List Move
shrinking =
    try_move 2 ∷ limit_move 4 ∷ acquire_move 1 false ∷ release_move 3 ∷ acquire_move 1 false ∷ []

abbrev three_of_four : AdjustableSemaphore
three_of_four = record { used = 3; limit = 4 }

shrinking-run : run shrinking three_of_five ≡ some three_of_four
unfolding run step try_acquire acquire_round set_limit release is_over take_slots add64 sub64 lt64
    is_positive64
shrinking-run = refl

run-run_takes_example :
    Within 9 three_of_four
    × (three_of_four.used + run_gives shrinking
        ≡ three_of_five.used + run_takes shrinking three_of_five)
    × AreDecided shrinking three_of_five
run-run_takes_example =
    run-run_takes 9 (omega arith) shrinking three_of_five three_of_four (omega arith, omega arith)
      (omega arith, (omega arith, (omega arith, (omega arith, (omega arith, tt))))) shrinking-run
