-- ===== src/Limiter.antt =====
-- packages/shared/pkg/connlimit/limiter.go over packages/shared/pkg/smap. Every access of a counter
-- or of the map is one atomic step, and the calls of several goroutines take theirs in any order.
-- A key is a number, since only its equality is used; a counter has an address, as other calls may
-- still hold one that `Remove` took out of the map.
pub mod Interleavings
pub mod Alone
pub mod Accounting
pub mod Release
mod Examples
use aether_agent.Prelude.{
  ℕ, ◌+◌, Bool, true, false, ◌&&◌, not, Option, none, some, List, [], ◌∷◌, ◌==◌, if◌then◌else◌,
  add64, sub64, lt64, is_positive64,
}

abbrev pub set_at {ℓ} : {A : Type ℓ} → (ℕ → A) → ℕ → A → ℕ → A
set_at f i a j = if i == j then a else f j

-- The map, the values of the counters, and the address of the next counter.
pub record Shared : Type 0 where
  pub connections : ℕ → Option ℕ
  pub counters : ℕ → ℕ
  pub next : ℕ

unfoldable pub new_connection_limiter : Shared
new_connection_limiter = record { connections = λ k. none; counters = λ a. 0; next = 0 }

-- `getCounter`: a new counter is made in any case, and kept when the key has none.
unfoldable pub get_counter : ℕ → Shared → ℕ × Shared
get_counter key s = elim (s.connections key) [
  | none ↦ (
    s.next,
    record {
      connections = set_at s.connections key (some s.next);
      counters = set_at s.counters s.next 0;
      next = s.next + 1;
    },
  )
  | some a ↦ (a, record s { counters = set_at s.counters s.next 0; next = s.next + 1 })
]

-- Where a call stands: before its load, between load and swap, or returned.
pub data Call : Type 0 where
  idle : Call
  acquiring : ℕ → ℕ → Call
  acquire_loaded : ℕ → ℕ → ℕ → Call
  acquired : ℕ → Bool → Call
  releasing : ℕ → Call
  release_loaded : ℕ → ℕ → Call
  released : Call

-- `maxLimit >= 0 && current >= int64(maxLimit)`.
unfoldable pub limit_reached : ℕ → ℕ → Bool
limit_reached max_limit current = not (lt64 max_limit 0) && not (lt64 current max_limit)

-- The first step of `TryAcquire`, of `Release` and of `Remove`, and `Count`.
unfoldable pub begin_acquire : ℕ → ℕ → Shared → Call × Shared
begin_acquire key max_limit s = let (a, s) = get_counter key s in (acquiring a max_limit, s)

unfoldable pub begin_release : ℕ → Shared → Call
begin_release key s = elim (s.connections key) [ none ↦ released | some a ↦ releasing a ]

unfoldable pub remove : ℕ → Shared → Shared
remove key s = record s { connections = set_at s.connections key none }

unfoldable pub count : ℕ → Shared → ℕ
count key s = elim (s.connections key) [ none ↦ 0 | some a ↦ s.counters a ]

-- The next load or compare-and-swap of a call.
unfoldable pub advance : Call → Shared → Call × Shared
advance idle s = (idle, s)
advance (acquiring a max_limit) s =
    if limit_reached max_limit (s.counters a)
    then (acquired (s.counters a) false, s)
    else (acquire_loaded a max_limit (s.counters a), s)
advance (acquire_loaded a max_limit current) s =
    if s.counters a == current
    then (
      acquired (add64 current 1) true,
      record s { counters = set_at s.counters a (add64 current 1) },
    )
    else (acquiring a max_limit, s)
advance (acquired n granted) s = (acquired n granted, s)
advance (releasing a) s =
    if not (is_positive64 (s.counters a))
    then (released, s)
    else (release_loaded a (s.counters a), s)
advance (release_loaded a current) s =
    if s.counters a == current
    then (released, record s { counters = set_at s.counters a (sub64 current 1) })
    else (releasing a, s)
advance released s = (released, s)

pub record State : Type 0 where
  pub calls : ℕ → Call
  pub shared : Shared

-- What goroutine `t` does next: it begins a call, or goes on with the one it is in.
pub data Move : Type 0 where
  start_acquire : ℕ → ℕ → ℕ → Move
  start_release : ℕ → ℕ → Move
  start_remove : ℕ → Move
  go_on : ℕ → Move

unfoldable pub begun : ℕ → State → Call × Shared → State
begun t s (c, shared) = record { calls = set_at s.calls t c; shared = shared }

unfoldable pub step : Move → State → State
unfolding begun
step (start_acquire t key max_limit) s = begun t s (begin_acquire key max_limit s.shared)
step (start_release t key) s = begun t s (begin_release key s.shared, s.shared)
step (start_remove key) s = record s { shared = remove key s.shared }
step (go_on t) s = begun t s (advance (s.calls t) s.shared)

unfoldable pub run : List Move → State → State
run [] s = s
run (m ∷ ms) s = run ms (step m s)

unfoldable pub initial : State
initial = record { calls = λ t. idle; shared = new_connection_limiter }
