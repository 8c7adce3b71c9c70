-- ===== src/SetOnce/Winner.antt =====
-- Which of several sets gets a nil error.
use aether_agent.Prelude.{
  ℕ, ◌+◌, ◌≡◌, ap, sym, not, ◌&&◌, Bool, true, false, Option, none, some, List, [], ◌∷◌,
  if◌then◌else◌, Bool-cases, Option-cases, inl, inr, arith,
}
use aether_agent.SetOnce.{
  Outcome, SetOnce, Call, idle, selecting, locking, finishing, set_returned, waiting, wait_returned,
  wait_cancelled, lock_and_set, advance, State, Move, start_set, start_wait, go_on, step, run,
}
use aether_agent.SetOnce.Interleavings.{Settled, Keeps, run-Settled}

abbrev pub one_if : Bool → ℕ
one_if b = if b then 1 else 0

module _ {A E : Type 0} where
  abbrev pub is_some : Option (Outcome A E) → Bool
  is_some none = false
  is_some (some r) = true

  abbrev pub is_set : SetOnce A E → Bool
  is_set s = is_some s.res

  -- Whether the error of a set is known, and is nil.
  abbrev pub has_nil_error : Call A E → Bool
  has_nil_error (finishing b) = b
  has_nil_error (set_returned b) = b
  has_nil_error other = false

  -- Whether a call gets a nil error in the step from one place to another.
  abbrev pub call_wins : Call A E → Call A E → ℕ
  call_wins c d = one_if (has_nil_error d && not (has_nil_error c))

  abbrev pub move_wins : Move A E → State A E → ℕ
  move_wins (go_on t x) s = call_wins (s.calls t) (advance x (s.calls t) s.once).0
  move_wins other s = 0

  -- How many calls get a nil error in a run.
  unfoldable pub wins : List (Move A E) → State A E → ℕ
  wins [] s = 0
  wins (m ∷ ms) s = move_wins m s + wins ms (step m s)

  lock_and_set-wins :
      (r : Outcome A E) (s : SetOnce A E)
      → call_wins (locking r) (lock_and_set r s).0 + one_if (is_set s)
        ≡ one_if (is_set (lock_and_set r s).1)
  unfolding lock_and_set
  lock_and_set-wins r s = elim (Option-cases s.res) [
    | inl p ↦ rw (p, lock_and_set)
    | inr (q, p) ↦ rw (p, lock_and_set) (ap (λ o. one_if (is_some o)) (sym p))
  ]

  advance-wins :
      (context_taken : Bool) (c : Call A E) (s : SetOnce A E)
      → call_wins c (advance context_taken c s).0 + one_if (is_set s)
        ≡ one_if (is_set (advance context_taken c s).1)
  unfolding advance
  advance-wins x idle s = omega arith
  advance-wins x (selecting r) s = elim (Bool-cases s.done) [
    | inl e ↦ simp e (omega arith)
    | inr e ↦ simp e (omega arith)
  ]
  advance-wins x (locking r) s = lock_and_set-wins r s
  advance-wins x (finishing true) s = omega arith
  advance-wins x (finishing false) s = omega arith
  advance-wins x (set_returned true) s = omega arith
  advance-wins x (set_returned false) s = omega arith
  advance-wins true waiting s = omega arith
  advance-wins false waiting s = elim (Bool-cases s.done) [
    | inl e ↦ simp e (omega arith)
    | inr e ↦ simp e (omega arith)
  ]
  advance-wins x (wait_returned o) s = omega arith
  advance-wins x wait_cancelled s = omega arith

  step-wins :
      (m : Move A E) (s : State A E)
      → move_wins m s + one_if (is_set s.once) ≡ one_if (is_set (step m s).once)
  unfolding step
  step-wins (start_set t r) s = omega arith
  step-wins (start_wait t) s = omega arith
  step-wins (go_on t x) s = advance-wins x (s.calls t) s.once

  -- In every interleaving the number of sets that get a nil error is one if an outcome is set at
  -- the end and none was at the start, and zero otherwise.
  run-wins :
      (moves : List (Move A E)) (s : State A E)
      → wins moves s + one_if (is_set s.once) ≡ one_if (is_set (run moves s).once)
  unfolding wins run
  run-wins [] s = omega arith
  run-wins (m ∷ ms) s = omega (arith, step-wins m s, run-wins ms (step m s))

  -- From a state where `Done` is closed only with an outcome set, and what the calls have seen is
  -- so, every interleaving of sets and waits keeps that, and keeps an outcome that is set: every
  -- wait that returns without the context's error got the outcome that is set, never a NotSetError
  -- and never another one. The number of sets whose error is decided in the run, and is nil, is
  -- one if an outcome is set at the end and none was at the start, and zero otherwise.
  pub run-Decided :
      (moves : List (Move A E)) (s : State A E)
      → Settled s
      → Settled (run moves s)
        × Keeps s.once (run moves s).once
        × (wins moves s + one_if (is_set s.once) ≡ one_if (is_set (run moves s).once))
  run-Decided moves s h = let (a, b) = run-Settled moves s h in (a, b, run-wins moves s)
