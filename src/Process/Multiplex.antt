-- ===== src/Process/Multiplex.antt =====
-- internal/services/process/handler/multiplex.go: a channel whose values go to every consumer. A
-- channel of a consumer is a number that `make` has not given before; it has no buffer, so a value
-- is delivered in one step together with the consumer's receive. A slice is its elements and, behind
-- them, the slots of its array that are out of reach; `append` writes into the array or, if the move
-- says so, into a new one. The fan-out goroutine and each call of `Fork` and `remove` take their
-- steps one by one, in any order.
mod Examples
mod Membership
mod Views
mod Once
mod Open
pub mod Heard
pub mod Whole
pub mod Stall
pub mod Exit
use aether_agent.Prelude.{
  ℕ, suc, Bool, true, false, Option, none, some, List, [], ◌∷◌, ◌++◌, ◌==◌, if◌then◌else◌, length,
  get_elem?,
}

module _ (A : Type 0) where
  -- Where the goroutine of `NewMultiplexedChannel` stands. While it sends it holds the read lock;
  -- `closing i n old` is its last loop, which ranges over the slice as it was when the loop began:
  -- `n` elements of the array of `channels`, or of the array `old` that `channels` has left.
  pub data FanOut : Type 0 where
    receiving : FanOut
    holding : A → FanOut
    sending : A → List ℕ → FanOut
    exiting : FanOut
    stored : FanOut
    closing : ℕ → ℕ → Option (List ℕ) → FanOut
    finished : FanOut
    panicked : FanOut

  -- What a consumer's channel has given to its reader, and whether it is closed.
  pub record Consumer : Type 0 where
    pub received : List A
    pub is_closed : Bool

  -- Where a caller stands. `forked` has a channel, `refused` the closed one of a late `Fork`.
  pub data Call : Type 0 where
    idle : Call
    forking : Call
    forked : ℕ → Call
    refused : Call
    removing : ℕ → Call

  -- The values of `source` are sent and not yet received.
  pub record MultiplexedChannel : Type 0 where
    pub source : List A
    pub source_is_closed : Bool
    pub channels : List ℕ
    pub behind : List ℕ
    pub exited : Bool
    pub fan_out : FanOut
    pub made : ℕ
    pub consumers : ℕ → Consumer
    pub calls : ℕ → Call

  pub data Move : Type 0 where
    send_source : A → Move
    close_source : Move
    go_on : Move
    call_fork : ℕ → Move
    lock_and_append : ℕ → Bool → Move
    call_remove : ℕ → Move
    lock_and_remove : ℕ → Move

abbrev pub put_at : {B : Type 0} → (ℕ → B) → ℕ → B → ℕ → B
put_at f c b i = if c == i then b else f i

abbrev pub tail : List ℕ → List ℕ
tail [] = []
tail (c ∷ cs) = cs

-- `append(m.channels[:i], m.channels[i+1:]...)` at the first place of the consumer.
unfoldable pub remove_first : ℕ → List ℕ → List ℕ
remove_first consumer [] = []
remove_first consumer (ch ∷ rest) = if ch == consumer then rest else ch ∷ remove_first consumer rest

unfoldable pub is_member : ℕ → List ℕ → Bool
is_member consumer [] = false
is_member consumer (ch ∷ rest) = if ch == consumer then true else is_member consumer rest

-- The slot that the elements moved away from keeps what it held.
abbrev pub last_slot : List ℕ → List ℕ
last_slot [] = []
last_slot (ch ∷ []) = ch ∷ []
last_slot (ch ∷ next ∷ rest) = last_slot (next ∷ rest)

-- The array that the last loop reads.
abbrev pub array_of : List ℕ → List ℕ → Option (List ℕ) → List ℕ
array_of channels behind none = channels ++ behind
array_of channels behind (some array) = array

module _ {A : Type 0} where
  unfoldable pub new_multiplexed_channel : MultiplexedChannel A
  new_multiplexed_channel = record {
    source = [];
    source_is_closed = false;
    channels = [];
    behind = [];
    exited = false;
    fan_out = receiving;
    made = 0;
    consumers = λ c. record { received = []; is_closed = false };
    calls = λ t. idle;
  }

  -- The read lock is held from before the first send until after the last.
  unfoldable pub is_read_locked : FanOut A → Bool
  is_read_locked (sending v rest) = true
  is_read_locked _ = false

  unfoldable pub deliver : A → ℕ → MultiplexedChannel A → MultiplexedChannel A
  deliver v c s =
      let k = s.consumers c in
      record s { consumers = put_at s.consumers c (record k { received = k.received ++ (v ∷ []) }) }

  -- A second close of a channel panics.
  unfoldable pub close_channel : ℕ → FanOut A → MultiplexedChannel A → MultiplexedChannel A
  close_channel c next s =
      let k = s.consumers c in
      if k.is_closed then record s { fan_out = panicked } else record s {
        consumers = put_at s.consumers c (record k { is_closed = true });
        fan_out = next;
      }

  -- `for v := range c.Source`.
  unfoldable pub receive : List A → MultiplexedChannel A → MultiplexedChannel A
  receive [] s = if s.source_is_closed then record s { fan_out = exiting } else s
  receive (v ∷ vs) s = record s { source = vs; fan_out = holding v }

  unfoldable pub close_next : ℕ → ℕ → Option (List ℕ) → MultiplexedChannel A → MultiplexedChannel A
  unfolding close_channel
  close_next i n old s =
      let array = array_of s.channels s.behind old in
      if i == n then record s { fan_out = finished } else elim (get_elem? array i) [
        | none ↦ s
        | some c ↦ close_channel c (closing (suc i) n old) s
      ]

  -- The next step of the goroutine.
  unfoldable pub advance : FanOut A → MultiplexedChannel A → MultiplexedChannel A
  unfolding receive deliver close_next
  advance receiving s = receive s.source s
  advance (holding v) s = record s { fan_out = sending v s.channels }
  advance (sending v []) s = record s { fan_out = receiving }
  advance (sending v (c ∷ rest)) s = record (deliver v c s) { fan_out = sending v rest }
  advance exiting s = record s { exited = true; fan_out = stored }
  advance stored s = record s { fan_out = closing 0 (length s.channels) none }
  advance (closing i n old) s = close_next i n old s
  advance finished s = s
  advance panicked s = s

  -- The test of `exited` comes before the lock.
  unfoldable pub fork : Bool → Call A → Call A
  fork exited idle = if exited then refused else forking
  fork exited k = k

  -- A loop over the array that `append` leaves goes on there.
  unfoldable pub leave_array : List ℕ → FanOut A → FanOut A
  leave_array array (closing i n none) = closing i n (some array)
  leave_array array f = f

  -- `m.channels = append(m.channels, consumer)`.
  unfoldable pub append_channel : Bool → ℕ → MultiplexedChannel A → MultiplexedChannel A
  unfolding leave_array
  append_channel grows c s =
      if grows
      then record s {
        channels = s.channels ++ (c ∷ []);
        behind = [];
        fan_out = leave_array (s.channels ++ s.behind) s.fan_out;
      }
      else record s { channels = s.channels ++ (c ∷ []); behind = tail s.behind }

  unfoldable pub remove : ℕ → MultiplexedChannel A → MultiplexedChannel A
  unfolding remove_first is_member
  remove consumer s =
      if is_member consumer s.channels
      then record s {
        channels = remove_first consumer s.channels;
        behind = last_slot s.channels ++ s.behind;
      }
      else s

  -- What happens once the write lock is free.
  unfoldable pub append_call : ℕ → Bool → Call A → MultiplexedChannel A → MultiplexedChannel A
  unfolding append_channel
  append_call t grows forking s = record (append_channel grows s.made s) {
    made = suc s.made;
    calls = put_at s.calls t (forked s.made);
  }
  append_call t grows _ s = s

  unfoldable pub remove_call : ℕ → Call A → MultiplexedChannel A → MultiplexedChannel A
  unfolding remove
  remove_call t (removing c) s = record (remove c s) { calls = put_at s.calls t idle }
  remove_call t _ s = s

  -- The function that `Fork` returned: it removes the channel, or does nothing.
  unfoldable pub cancel : Call A → Call A
  cancel (forked c) = removing c
  cancel refused = idle
  cancel k = k

  unfoldable pub step : Move A → MultiplexedChannel A → MultiplexedChannel A
  unfolding is_read_locked advance fork append_call remove_call cancel
  step (send_source v) s =
      if s.source_is_closed then s else record s { source = s.source ++ (v ∷ []) }
  step close_source s = record s { source_is_closed = true }
  step go_on s = advance s.fan_out s
  step (call_fork t) s = record s { calls = put_at s.calls t (fork s.exited (s.calls t)) }
  step (lock_and_append t grows) s =
      if is_read_locked s.fan_out then s else append_call t grows (s.calls t) s
  step (call_remove t) s = record s { calls = put_at s.calls t (cancel (s.calls t)) }
  step (lock_and_remove t) s = if is_read_locked s.fan_out then s else remove_call t (s.calls t) s

  unfoldable pub run : List (Move A) → MultiplexedChannel A → MultiplexedChannel A
  unfolding step
  run [] s = s
  run (m ∷ ms) s = run ms (step m s)
