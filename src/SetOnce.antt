-- ===== src/SetOnce.antt =====
-- packages/shared/pkg/utils/set_once.go: a value that is set once and waited for. The channel
-- `Done` is open or closed; a call takes its steps one by one, in any order with those of others:
-- the `select` on `Done`, the part under the lock, and the deferred `setDone`. At each step of a
-- wait an argument says whether its context is cancelled and the `select` takes that case, which it
-- may also where `Done` is closed; for `Wait` it never is.
pub mod Interleavings
pub mod Winner
mod Examples
use aether_agent.Prelude.{
  ℕ, Bool, true, false, Option, none, some, List, [], ◌∷◌, ◌==◌, if◌then◌else◌,
}

pub record Outcome (A E : Type 0) : Type 0 where
  pub value : A
  pub error : Option E

module _ (A E : Type 0) where
  pub record SetOnce : Type 0 where
    pub done : Bool
    pub res : Option (Outcome A E)

  -- Where a call stands. A wait ends with what `Result` returns, or with the context's error.
  pub data Call : Type 0 where
    idle : Call
    selecting : Outcome A E → Call
    locking : Outcome A E → Call
    finishing : Bool → Call
    set_returned : Bool → Call
    waiting : Call
    wait_returned : Option (Outcome A E) → Call
    wait_cancelled : Call

module _ {A E : Type 0} where
  unfoldable pub new_set_once : SetOnce A E
  new_set_once = record { done = false; res = none }

  -- `SetValue`, `SetError` and `SetResult` choose what `setResult` is called with.
  unfoldable pub set_value : A → Call A E
  set_value value = selecting (record { value = value; error = none })

  unfoldable pub set_error : A → Option E → Call A E
  set_error zero_value error = selecting (record { value = zero_value; error = error })

  unfoldable pub set_result : A → A → Option E → Call A E
  unfolding set_value set_error
  set_result zero_value value none = set_value value
  set_result zero_value value (some e) = set_error zero_value (some e)

  -- `Result`; `none` is the zero value with a NotSetError.
  unfoldable pub result : SetOnce A E → Option (Outcome A E)
  result s = s.res

  -- Under the lock: the first outcome is kept, and a later call gets ErrAlreadySet.
  unfoldable pub lock_and_set : Outcome A E → SetOnce A E → Call A E × SetOnce A E
  lock_and_set r s = elim s.res [
    | none ↦ (finishing true, record s { res = some r })
    | some q ↦ (finishing false, s)
  ]

  -- The next step of a call; `true` is a nil error of a set.
  unfoldable pub advance : Bool → Call A E → SetOnce A E → Call A E × SetOnce A E
  advance context_taken idle s = (idle, s)
  advance context_taken (selecting r) s = if s.done then (finishing false, s) else (locking r, s)
  advance context_taken (locking r) s = lock_and_set r s
  advance context_taken (finishing b) s = (set_returned b, record s { done = true })
  advance context_taken (set_returned b) s = (set_returned b, s)
  advance context_taken waiting s =
      if context_taken
      then (wait_cancelled, s)
      else if s.done
      then (wait_returned (result s), s)
      else (waiting, s)
  advance context_taken (wait_returned o) s = (wait_returned o, s)
  advance context_taken wait_cancelled s = (wait_cancelled, s)

module _ (A E : Type 0) where
  pub record State : Type 0 where
    pub calls : ℕ → Call A E
    pub once : SetOnce A E

  -- Goroutine `t` sets, waits, or goes on with its call.
  pub data Move : Type 0 where
    start_set : ℕ → Outcome A E → Move
    start_wait : ℕ → Move
    go_on : ℕ → Bool → Move

module _ {A E : Type 0} where
  abbrev pub put_call : (ℕ → Call A E) → ℕ → Call A E → ℕ → Call A E
  put_call f t c i = if t == i then c else f i

  unfoldable pub step : Move A E → State A E → State A E
  step (start_set t r) s = record s { calls = put_call s.calls t (selecting r) }
  step (start_wait t) s = record s { calls = put_call s.calls t waiting }
  step (go_on t context_taken) s =
      let (c, once) = advance context_taken (s.calls t) s.once in
      record { calls = put_call s.calls t c; once = once }

  unfoldable pub run : List (Move A E) → State A E → State A E
  run [] s = s
  run (m ∷ ms) s = run ms (step m s)

  unfoldable pub initial : State A E
  initial = record { calls = λ t. idle; once = new_set_once }
