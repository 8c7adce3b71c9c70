-- ===== src/Limiter/Interleavings.antt =====
-- The counters in every interleaving of calls.
use aether_agent.Prelude.{
  ℕ, ◌≤◌, ◌<◌, ◌≡◌, List, [], ◌∷◌, arith, All, Bool-cases, Option-cases, inl, inr, false, ◌==◌,
  i64_max, add64_small, sub64_small, lt64_small, is_positive64,
}
use aether_agent.Limiter.{
  set_at, Shared, Call, idle, acquiring, acquire_loaded, acquired, releasing, release_loaded,
  released, limit_reached, State, Move, start_acquire, start_release, start_remove, go_on, step,
  run, get_counter, begin_acquire, begin_release, remove, advance,
}

-- No call asks for more than `bound`, and what a call has loaded is below its limit.
abbrev pub Bounded : ℕ → Call → Type 0
Bounded bound (acquiring a max_limit) = max_limit ≤ bound
Bounded bound (acquire_loaded a max_limit current) = (max_limit ≤ bound) × (current < max_limit)
Bounded bound (release_loaded a current) = 0 < current
Bounded bound other = Unit {0}

abbrev pub Asks : ℕ → Move → Type 0
Asks bound (start_acquire t key max_limit) = max_limit ≤ bound
Asks bound other = Unit {0}

pub record Within (bound : ℕ) (s : State) : Type 0 where
  pub calls : (t : ℕ) → Bounded bound (s.calls t)
  pub counters : (a : ℕ) → s.shared.counters a ≤ bound

module _ (bound : ℕ) (small : bound < i64_max) where
  below_limit : (l c : ℕ) → l ≤ bound → c ≤ bound → limit_reached l c ≡ false → c < l
  unfolding limit_reached
  below_limit l c h k e = ground (
    arith,
    lt64_small l 0 (omega arith) (omega arith),
    lt64_small c l (omega arith) (omega arith),
  )

  advance-Bounded :
      (c : Call) (s : Shared)
      → Bounded bound c
      → ((a : ℕ) → s.counters a ≤ bound)
      → Bounded bound (advance c s).0 × ((a : ℕ) → (advance c s).1.counters a ≤ bound)
  unfolding advance
  advance-Bounded idle s b f = (tt, f)
  advance-Bounded (acquiring a l) s b f = elim (Bool-cases (limit_reached l (s.counters a))) [
    | inl e ↦ rw e (tt, f)
    | inr e ↦ rw e ((b, below_limit l (s.counters a) b (f a) e), f)
  ]
  advance-Bounded (acquire_loaded a l c) s b f = elim (Bool-cases (s.counters a == c)) [
    | inl e ↦ rw e (tt, λ i. ground (arith, f i, add64_small c 1))
    | inr e ↦ rw e (b.0, f)
  ]
  advance-Bounded (acquired n g) s b f = (tt, f)
  advance-Bounded (releasing a) s b f = elim (Bool-cases (is_positive64 (s.counters a))) [
    | inl e ↦ rw e (unfold is_positive64 in ground arith, f)
    | inr e ↦ rw e (tt, f)
  ]
  advance-Bounded (release_loaded a c) s b f = elim (Bool-cases (s.counters a == c)) [
    | inl e ↦ rw e (tt, λ i. ground (arith, f i, f a, sub64_small c 1))
    | inr e ↦ rw e (tt, f)
  ]
  advance-Bounded released s b f = (tt, f)

  get_counter-counters :
      (key : ℕ) (s : Shared)
      → ((a : ℕ) → s.counters a ≤ bound)
      → (a : ℕ) → (get_counter key s).1.counters a ≤ bound
  unfolding get_counter
  get_counter-counters key s f a = elim (Option-cases (s.connections key)) [
    | inl e ↦ rw (e, get_counter) (ground (arith, f a))
    | inr (b, e) ↦ rw (e, get_counter) (ground (arith, f a))
  ]

  begin_release-Bounded : (key : ℕ) (s : Shared) → Bounded bound (begin_release key s)
  unfolding begin_release
  begin_release-Bounded key s = elim (Option-cases (s.connections key)) [
    | inl e ↦ rw (e, begin_release) tt
    | inr (b, e) ↦ rw (e, begin_release) tt
  ]

  set_at-Bounded :
      (f : ℕ → Call) (t : ℕ) (c : Call)
      → Bounded bound c
      → ((i : ℕ) → Bounded bound (f i))
      → (i : ℕ) → Bounded bound (set_at f t c i)
  set_at-Bounded f t c b g i = elim (Bool-cases (t == i)) [ inl e ↦ rw e b | inr e ↦ rw e (g i) ]

  pub step-Within : (m : Move) (s : State) → Asks bound m → Within bound s → Within bound (step m s)
  unfolding step begin_acquire remove
  step-Within (start_acquire t key l) s q w = record {
    calls = set_at-Bounded s.calls t (acquiring (get_counter key s.shared).0 l) q w.calls;
    counters = get_counter-counters key s.shared w.counters;
  }
  step-Within (start_release t key) s q w = record {
    calls =
        set_at-Bounded s.calls t (begin_release key s.shared) (begin_release-Bounded key s.shared)
          w.calls;
    counters = w.counters;
  }
  step-Within (start_remove key) s q w = record { calls = w.calls; counters = w.counters }
  step-Within (go_on t) s q w =
      let (b, f) = advance-Bounded (s.calls t) s.shared (w.calls t) w.counters in
      record {
        calls = set_at-Bounded s.calls t (advance (s.calls t) s.shared).0 b w.calls;
        counters = f;
      }

  -- If no call asks for a limit above `bound`, which is below 2 ^ 63 (a negative limit is above
  -- it), then every interleaving of the steps of any number of calls keeps every counter at
  -- `bound` or below, from any state in which the counters and what the running calls have loaded
  -- are within their limits.
  pub run-Within :
      (moves : List Move) (s : State)
      → All (Asks bound) moves
      → Within bound s
      → Within bound (run moves s)
  unfolding run
  run-Within [] s q w = w
  run-Within (m ∷ ms) s q w = run-Within ms (step m s) q.1 (step-Within m s q.0 w)
