-- ===== src/Limiter/Examples.antt =====
-- Runs of the connection limiter.
use aether_agent.Prelude.{
  ℕ, ◌+◌, ◌-◌, ◌≡◌, ◌≢◌, refl, arith, List, [], ◌∷◌, some, none, true, false, if◌then◌else◌, ltb,
  lt64, add64,
}
use aether_agent.Limiter.{
  Shared, State, Move, acquired, released, start_acquire, start_release, go_on, run, step, begun,
  count, remove, begin_acquire, begin_release, get_counter, advance, limit_reached, set_at,
}
use aether_agent.Limiter.Interleavings.{Within, run-Within}
use aether_agent.Limiter.Accounting.{grants, drops, run-counters}
use aether_agent.Limiter.Alone.{IsOwn, Ended, finish}
use aether_agent.Limiter.Release.{calls_alone}

-- Key 1 has two connections.
abbrev two_held : Shared
two_held = record {
  connections = set_at (λ k. none) 1 (some 0);
  counters = set_at (λ a. 0) 0 2;
  next = 1;
}

two_held-entry : (k a : ℕ) → two_held.connections k ≡ some a → (k ≡ 1) × (a ≡ 0)
two_held-entry k a p = ground arith

two_held-IsOwn : IsOwn two_held
two_held-IsOwn = record {
  made = λ k a p. omega (arith, two_held-entry k a p);
  own = λ k j a p q. omega (arith, two_held-entry k a p, two_held-entry j a q);
}

two_held-count : count 1 two_held ≡ 2
unfolding count
two_held-count = refl

calls_alone_example :
    Ended 1 two_held
      (if ltb (count 1 two_held) 3
        then acquired (count 1 two_held + 1) true
        else acquired (count 1 two_held) false)
      (if ltb (count 1 two_held) 3 then count 1 two_held + 1 else count 1 two_held)
      (finish (begin_acquire 1 3 two_held))
    × Ended 1 two_held released (count 1 two_held - 1) (finish (begin_release 1 two_held, two_held))
    × ((count 1 (remove 1 two_held) ≡ 0)
        × ((other : ℕ) → other ≢ 1 → count other (remove 1 two_held) ≡ count other two_held)
        × IsOwn (remove 1 two_held))
calls_alone_example =
    calls_alone 1 3 two_held two_held-IsOwn (omega arith) (omega (arith, two_held-count))

abbrev held : State
held = record { calls = λ t. acquired 0 false; shared = two_held }

held-Within : Within 3 held
held-Within = record { calls = λ t. tt; counters = λ a. ground arith }

-- Two goroutines acquire with limit 3, both load before one swaps, and a third one releases.
abbrev contended : List Move
contended =
    start_acquire 5 1 3
    ∷ start_acquire 6 1 3
    ∷ go_on 5
    ∷ go_on 6
    ∷ go_on 5
    ∷ go_on 6
    ∷ go_on 6
    ∷ start_release 7 1
    ∷ go_on 7
    ∷ go_on 7
    ∷ []

run-Within_example : Within 3 (run contended held)
run-Within_example =
    run-Within 3 (omega arith) contended held
      (omega arith, (omega arith, (tt, (tt, (tt, (tt, (tt, (tt, (tt, (tt, tt)))))))))) held-Within

run-counters_example :
    (run contended held).shared.counters 0 + drops 0 contended held
    ≡ held.shared.counters 0 + grants 0 contended held
run-counters_example =
    run-counters 3 (omega arith) 0 contended held
      (omega arith, (omega arith, (tt, (tt, (tt, (tt, (tt, (tt, (tt, (tt, tt)))))))))) held-Within
      (omega arith)

-- The second goroutine's swap fails, and its next load finds the limit reached.
contended-run : (run contended held).calls 6 ≡ acquired 3 false
unfolding run step begun begin_acquire begin_release get_counter advance limit_reached lt64 add64
contended-run = refl
