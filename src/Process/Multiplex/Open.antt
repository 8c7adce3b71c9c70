-- ===== src/Process/Multiplex/Open.antt =====
-- No channel of a consumer is closed before the last loop.
use aether_agent.Prelude.{
  ℕ, suc, Bool, true, false, Option, none, some, List, [], ◌∷◌, ◌++◌, ◌==◌, ◌≡◌, refl, inl, inr,
  Bool-cases, Option-cases, get_elem?,
}
use aether_agent.Process.Multiplex.{
  FanOut, receiving, holding, sending, exiting, stored, closing, finished, panicked, Call, idle,
  forking, forked, refused, removing, MultiplexedChannel, Move, send_source, close_source, go_on,
  call_fork, lock_and_append, call_remove, lock_and_remove, is_read_locked, close_channel, receive,
  close_next, advance, leave_array, append_channel, is_member, remove, append_call, remove_call,
  step, run, array_of,
}

-- Before the last loop.
abbrev pub is_before_closing : {A : Type 0} → FanOut A → Bool
is_before_closing (closing i n old) = false
is_before_closing finished = false
is_before_closing panicked = false
is_before_closing _ = true

module _ {A : Type 0} where
  -- No channel is closed before the last loop.
  abbrev pub IsOpen : MultiplexedChannel A → Type 0
  IsOpen s = is_before_closing s.fan_out ≡ true → (c : ℕ) → (s.consumers c).is_closed ≡ false

  IsOpen-close_channel :
      (c : ℕ) (i n : ℕ) (old : Option (List ℕ)) (s : MultiplexedChannel A)
      → IsOpen (close_channel c (closing i n old) s)
  unfolding close_channel
  IsOpen-close_channel c i n old s = elim (Bool-cases (s.consumers c).is_closed) [
    | inl e ↦ rw e (λ h d. cc)
    | inr e ↦ rw e (λ h d. cc)
  ]

  IsOpen-receive :
      (s : MultiplexedChannel A) (vs : List A)
      → s.fan_out ≡ receiving
      → IsOpen s
      → IsOpen (receive vs s)
  unfolding receive
  IsOpen-receive s [] q h = elim (Bool-cases s.source_is_closed) [
    | inl e ↦ rw e (λ b. h (rw q refl))
    | inr e ↦ rw e h
  ]
  IsOpen-receive s (v ∷ vs) q h = λ b. h (rw q refl)

  is_before-leave_array :
      (array : List ℕ) (f : FanOut A)
      → is_before_closing (leave_array array f) ≡ is_before_closing f
  unfolding leave_array
  is_before-leave_array array receiving = refl
  is_before-leave_array array (holding v) = refl
  is_before-leave_array array (sending v rest) = refl
  is_before-leave_array array exiting = refl
  is_before-leave_array array stored = refl
  is_before-leave_array array (closing i n none) = refl
  is_before-leave_array array (closing i n (some a)) = refl
  is_before-leave_array array finished = refl
  is_before-leave_array array panicked = refl

  IsOpen-append_call :
      (t : ℕ) (grows : Bool) (k : Call A) (s : MultiplexedChannel A)
      → IsOpen s
      → IsOpen (append_call t grows k s)
  unfolding append_call append_channel
  IsOpen-append_call t grows idle s h = h
  IsOpen-append_call t grows forking s h = elim (Bool-cases grows) [
    | inl e ↦ rw (e, is_before-leave_array (s.channels ++ s.behind) s.fan_out) h
    | inr e ↦ rw e h
  ]
  IsOpen-append_call t grows (forked d) s h = h
  IsOpen-append_call t grows refused s h = h
  IsOpen-append_call t grows (removing d) s h = h

  IsOpen-remove_call :
      (t : ℕ) (k : Call A) (s : MultiplexedChannel A) → IsOpen s → IsOpen (remove_call t k s)
  unfolding remove_call remove
  IsOpen-remove_call t idle s h = h
  IsOpen-remove_call t forking s h = h
  IsOpen-remove_call t (forked d) s h = h
  IsOpen-remove_call t refused s h = h
  IsOpen-remove_call t (removing d) s h = elim (Bool-cases (is_member d s.channels)) [
    | inl e ↦ rw e h
    | inr e ↦ rw e h
  ]

  IsOpen-advance :
      (f : FanOut A) (s : MultiplexedChannel A) → s.fan_out ≡ f → IsOpen s → IsOpen (advance f s)
  unfolding advance
  IsOpen-advance receiving s q h = IsOpen-receive s s.source q h
  IsOpen-advance (holding v) s q h = λ b. h (rw q refl)
  IsOpen-advance (sending v []) s q h = λ b. h (rw q refl)
  IsOpen-advance (sending v (d ∷ rest)) s q h = λ b c. elim (Bool-cases (d == c)) [
    | inl e ↦ rw e (h (rw q refl) d)
    | inr e ↦ rw e (h (rw q refl) c)
  ]
  IsOpen-advance exiting s q h = λ b. h (rw q refl)
  IsOpen-advance stored s q h = λ b d. cc
  IsOpen-advance (closing i n old) s q h =
      unfold close_next in
      elim (Bool-cases (i == n)) [
        | inl e ↦ rw e (λ b c. cc)
        | inr e ↦ rw e (elim (Option-cases (get_elem? (array_of s.channels s.behind old) i)) [
          | inl g ↦ rw g h
          | inr (d, g) ↦ rw g (IsOpen-close_channel d (suc i) n old s)
        ])
      ]
  IsOpen-advance finished s q h = h
  IsOpen-advance panicked s q h = h

  IsOpen-step : (m : Move A) (s : MultiplexedChannel A) → IsOpen s → IsOpen (step m s)
  unfolding step
  IsOpen-step (send_source v) s h = elim (Bool-cases s.source_is_closed) [
    | inl e ↦ rw e h
    | inr e ↦ rw e h
  ]
  IsOpen-step close_source s h = h
  IsOpen-step go_on s h = IsOpen-advance s.fan_out s refl h
  IsOpen-step (call_fork t) s h = h
  IsOpen-step (lock_and_append t grows) s h = elim (Bool-cases (is_read_locked s.fan_out)) [
    | inl e ↦ rw e h
    | inr e ↦ rw e (IsOpen-append_call t grows (s.calls t) s h)
  ]
  IsOpen-step (call_remove t) s h = h
  IsOpen-step (lock_and_remove t) s h = elim (Bool-cases (is_read_locked s.fan_out)) [
    | inl e ↦ rw e h
    | inr e ↦ rw e (IsOpen-remove_call t (s.calls t) s h)
  ]

  pub IsOpen-run : (ms : List (Move A)) (s : MultiplexedChannel A) → IsOpen s → IsOpen (run ms s)
  unfolding run
  IsOpen-run [] s h = h
  IsOpen-run (m ∷ ms) s h = IsOpen-run ms (step m s) (IsOpen-step m s h)
