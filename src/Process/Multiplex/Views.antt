-- ===== src/Process/Multiplex/Views.antt =====
-- What a consumer of a multiplexed channel sees, and channels that broadcast at once.
use aether_agent.Prelude.{ℕ, ◌+◌, ◌-◌, List, [], ◌∷◌, ◌++◌, ◌==◌, if◌then◌else◌, replicate}
use aether_agent.Process.Multiplex.{
  FanOut, holding, sending, Call, forking, removing, MultiplexedChannel, Move, send_source,
  close_source, go_on, call_fork, lock_and_append, call_remove, lock_and_remove, is_read_locked,
  step,
}
use aether_agent.Process.Multiplex.Membership.{count_of, one_if}

-- What a run does for the consumers: a value offered, the next value heard by all, and the
-- consumers that join and leave.
pub data Event (A : Type 0) : Type 0 where
  offered : A → Event A
  broadcast : Event A
  joined : ℕ → Event A
  left : ℕ → Event A
  nothing : Event A

-- A channel that broadcasts at once, as one consumer sees it: what is still to come, how often the
-- consumer is a member, and what it has heard.
pub record View (A : Type 0) : Type 0 where
  pub to_come : List A
  pub membership : ℕ
  pub heard : List A

module _ {A : Type 0} where
  -- The value that the goroutine took from the source and has not begun to send.
  abbrev pub in_hand : FanOut A → List A
  in_hand (holding v) = v ∷ []
  in_hand _ = []

  -- The value that the consumer gets before the goroutine goes back to the source.
  abbrev pub on_the_way : ℕ → FanOut A → List A
  on_the_way c (sending v rest) = replicate (count_of c rest) v
  on_the_way c _ = []

  abbrev pub view : ℕ → MultiplexedChannel A → View A
  view c s = record {
    to_come = in_hand s.fan_out ++ s.source;
    membership = count_of c s.channels;
    heard = (s.consumers c).received ++ on_the_way c s.fan_out;
  }

  abbrev pub taken : FanOut A → Event A
  taken (holding v) = broadcast
  taken _ = nothing

  abbrev pub appended : ℕ → Call A → Event A
  appended c forking = joined c
  appended c _ = nothing

  abbrev pub removed : Call A → Event A
  removed (removing c) = left c
  removed _ = nothing

  abbrev pub event : Move A → MultiplexedChannel A → Event A
  event (send_source v) s = if s.source_is_closed then nothing else offered v
  event close_source s = nothing
  event go_on s = taken s.fan_out
  event (call_fork t) s = nothing
  event (lock_and_append t grows) s =
      if is_read_locked s.fan_out then nothing else appended s.made (s.calls t)
  event (call_remove t) s = nothing
  event (lock_and_remove t) s = if is_read_locked s.fan_out then nothing else removed (s.calls t)

  abbrev pub events : List (Move A) → MultiplexedChannel A → List (Event A)
  events [] s = []
  events (m ∷ ms) s = event m s ∷ events ms (step m s)

  abbrev pub hear : List A → View A → View A
  hear [] w = w
  hear (v ∷ vs) w = record w { to_come = vs; heard = w.heard ++ replicate w.membership v }

  abbrev pub follow : ℕ → Event A → View A → View A
  follow c (offered v) w = record w { to_come = w.to_come ++ (v ∷ []) }
  follow c broadcast w = hear w.to_come w
  follow c (joined d) w = record w { membership = w.membership + one_if (d == c) }
  follow c (left d) w = record w { membership = w.membership - one_if (d == c) }
  follow c nothing w = w

  abbrev pub follow_all : ℕ → List (Event A) → View A → View A
  follow_all c [] w = w
  follow_all c (e ∷ es) w = follow_all c es (follow c e w)
