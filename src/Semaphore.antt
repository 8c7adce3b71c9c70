-- ===== src/Semaphore.antt =====
-- packages/shared/pkg/utils/resizable_semaphore.go: a semaphore whose limit can change. Each
-- operation is one section under the mutex; `Acquire` is a round of its loop, which ends, or waits
-- for a change and comes back. A context is cancelled or not at each round. A positive int64 is
-- a pattern from 1 to 2 ^ 63 - 1.
pub mod Holdings
mod Examples
use aether_agent.Prelude.{
  ℕ, Bool, true, false, not, ◌&&◌, Option, none, some, List, [], ◌∷◌, if◌then◌else◌, add64, sub64,
  lt64, is_positive64,
}

pub record AdjustableSemaphore : Type 0 where
  pub used : ℕ
  pub limit : ℕ

-- How a round of `Acquire` ends.
pub data Round : Type 0 where
  acquired waits cancelled_error unsupported : Round

unfoldable pub new_adjustable_semaphore : ℕ → Option AdjustableSemaphore
new_adjustable_semaphore limit =
    if is_positive64 limit then some (record { used = 0; limit = limit }) else none

-- `s.used+n > s.limit`.
unfoldable pub is_over : ℕ → AdjustableSemaphore → Bool
is_over n s = lt64 s.limit (add64 s.used n)

unfoldable pub take_slots : ℕ → AdjustableSemaphore → AdjustableSemaphore
take_slots n s = record s { used = add64 s.used n }

unfoldable pub acquire_round : Bool → ℕ → AdjustableSemaphore → Round × AdjustableSemaphore
acquire_round is_cancelled n s =
    if not (is_positive64 n)
    then (unsupported, s)
    else if is_over n s
    then (if is_cancelled then (cancelled_error, s) else (waits, s))
    else (acquired, take_slots n s)

unfoldable pub try_acquire : ℕ → AdjustableSemaphore → Bool × AdjustableSemaphore
try_acquire n s =
    if not (is_positive64 n)
    then (false, s)
    else if is_over n s
    then (false, s)
    else (true, take_slots n s)

unfoldable pub set_limit : ℕ → AdjustableSemaphore → Bool × AdjustableSemaphore
set_limit limit s = if is_positive64 limit then (true, record s { limit = limit }) else (false, s)

-- `none` is a panic.
unfoldable pub release : ℕ → AdjustableSemaphore → Option AdjustableSemaphore
release n s =
    if not (is_positive64 n)
    then none
    else if lt64 s.used n
    then none
    else some (record s { used = sub64 s.used n })

-- One section of some goroutine.
pub data Move : Type 0 where
  acquire_move : ℕ → Bool → Move
  try_move : ℕ → Move
  limit_move : ℕ → Move
  release_move : ℕ → Move

unfoldable pub step : Move → AdjustableSemaphore → Option AdjustableSemaphore
step (acquire_move n is_cancelled) s = some (acquire_round is_cancelled n s).1
step (try_move n) s = some (try_acquire n s).1
step (limit_move l) s = some (set_limit l s).1
step (release_move n) s = release n s

-- A run, which a panic ends.
unfoldable pub run : List Move → AdjustableSemaphore → Option AdjustableSemaphore
run [] s = some s
run (m ∷ ms) s = elim (step m s) [ none ↦ none | some t ↦ run ms t ]
