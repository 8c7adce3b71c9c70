-- ===== src/Limiter/Accounting.antt =====
-- Where the value of a counter comes from, in every interleaving of calls.
use aether_agent.Prelude.{
  ℕ, ◌+◌, ◌≤◌, ◌<◌, ◌≡◌, refl, List, [], ◌∷◌, arith, All, Option-cases, inl, inr, Bool, ◌&&◌, ◌==◌,
  if◌then◌else◌, i64_max, add64_small, sub64_small,
}
use aether_agent.Limiter.{
  Shared, Call, idle, acquiring, acquire_loaded, acquired, releasing, release_loaded, released,
  State, Move, start_acquire, start_release, start_remove, go_on, step, run, get_counter,
  begin_acquire, remove, advance,
}
use aether_agent.Limiter.Interleavings.{Within, Asks, Bounded, step-Within}

abbrev one_if : Bool → ℕ
one_if b = if b then 1 else 0

-- Whether the next step of a call takes a slot of counter `a`, and whether it gives one back.
abbrev call_grants : ℕ → Call → Shared → ℕ
call_grants a (acquire_loaded b l c) s = one_if (a == b && s.counters b == c)
call_grants a other s = 0

abbrev call_drops : ℕ → Call → Shared → ℕ
call_drops a (release_loaded b c) s = one_if (a == b && s.counters b == c)
call_drops a other s = 0

abbrev move_grants : ℕ → Move → State → ℕ
move_grants a (go_on t) s = call_grants a (s.calls t) s.shared
move_grants a other s = 0

abbrev move_drops : ℕ → Move → State → ℕ
move_drops a (go_on t) s = call_drops a (s.calls t) s.shared
move_drops a other s = 0

-- How often a run takes a slot of the counter, and how often it gives one back.
unfoldable pub grants : ℕ → List Move → State → ℕ
grants a [] s = 0
grants a (m ∷ ms) s = move_grants a m s + grants a ms (step m s)

unfoldable pub drops : ℕ → List Move → State → ℕ
drops a [] s = 0
drops a (m ∷ ms) s = move_drops a m s + drops a ms (step m s)

module _ (bound : ℕ) (small : bound < i64_max) (a : ℕ) where
  advance-counters :
      (c : Call) (s : Shared)
      → Bounded bound c
      → ((i : ℕ) → s.counters i ≤ bound)
      → ((advance c s).1.counters a + call_drops a c s ≡ s.counters a + call_grants a c s)
        × ((advance c s).1.next ≡ s.next)
  unfolding advance
  advance-counters idle s b f = (refl, refl)
  advance-counters (acquiring i l) s b f = ground arith
  advance-counters (acquire_loaded i l c) s b f = ground (arith, f i, add64_small c 1)
  advance-counters (acquired n g) s b f = (refl, refl)
  advance-counters (releasing i) s b f = ground arith
  advance-counters (release_loaded i c) s b f = ground (arith, f i, sub64_small c 1)
  advance-counters released s b f = (refl, refl)

  get_counter-old :
      (key : ℕ) (s : Shared)
      → a < s.next
      → ((get_counter key s).1.counters a ≡ s.counters a) × (a < (get_counter key s).1.next)
  unfolding get_counter
  get_counter-old key s h = elim (Option-cases (s.connections key)) [
    | inl e ↦ rw (e, get_counter) (ground arith)
    | inr (b, e) ↦ rw (e, get_counter) (ground arith)
  ]

  step-counters :
      (m : Move) (s : State)
      → Within bound s
      → a < s.shared.next
      → ((step m s).shared.counters a + move_drops a m s ≡ s.shared.counters a + move_grants a m s)
        × (a < (step m s).shared.next)
  unfolding step begin_acquire remove
  step-counters (start_acquire t key l) s w h =
      let (e, k) = get_counter-old key s.shared h in (omega (arith, e), k)
  step-counters (start_release t key) s w h = (refl, h)
  step-counters (start_remove key) s w h = (refl, h)
  step-counters (go_on t) s w h =
      let (e, k) = advance-counters (s.calls t) s.shared (w.calls t) w.counters in
      (e, omega (arith, k))

  -- In every interleaving, from a state in which the counters and what the running calls have
  -- loaded are within their limits, if no call asks for a limit above `bound`, which is below 2 ^
  -- 63, a counter that was made before grows by the number of successful swaps that take a slot of
  -- it, and falls by the number of those that give one back: no update is lost.
  pub run-counters :
      (moves : List Move) (s : State)
      → All (Asks bound) moves
      → Within bound s
      → a < s.shared.next
      → (run moves s).shared.counters a + drops a moves s ≡ s.shared.counters a + grants a moves s
  unfolding run grants drops
  run-counters [] s q w h = refl
  run-counters (m ∷ ms) s q w h =
      let (e, k) = step-counters m s w h in
      omega (arith, e, run-counters ms (step m s) q.1 (step-Within bound small m s q.0 w) k)
