-- ===== src/Process/Multiplex/Once.antt =====
-- A consumer stands in the slice of a multiplexed channel once at most.
use aether_agent.Prelude.{
  ℕ, suc, ◌+◌, ◌-◌, Bool, Option, List, [], ◌∷◌, ◌==◌, ==_iff, ◌≡◌, ◌≤◌, refl, ap, ◌∙◌, arith, inl,
  inr, Bool-cases, Option-cases, get_elem?,
}
use aether_agent.Process.Multiplex.{
  new_multiplexed_channel, FanOut, receiving, holding, sending, exiting, stored, closing, finished,
  panicked, Call, idle, forking, forked, refused, removing, MultiplexedChannel, Move, send_source,
  close_source, go_on, call_fork, lock_and_append, call_remove, lock_and_remove, is_read_locked,
  deliver, close_channel, receive, close_next, advance, is_member, remove, append_call, remove_call,
  step, run, array_of,
}
use aether_agent.Process.Multiplex.Membership.{count_of}
use aether_agent.Process.Multiplex.Views.{
  Event, offered, broadcast, joined, left, nothing, View, view, taken, appended, removed, event,
  hear, follow,
}
use aether_agent.Process.Multiplex.Heard.{view-step}

once_still :
    (c n n' k x : ℕ) → k ≡ x → n' ≡ n → (x ≤ 1) × (n ≤ c → x ≡ 0) → (k ≤ 1) × (n' ≤ c → k ≡ 0)
once_still c n n' k x q m h =
    (omega (arith, h.0, q), λ l. omega (arith, q, h.1 (omega (arith, l, m))))

module _ {A : Type 0} where
  pub membership-hear : (w : View A) (vs : List A) → (hear vs w).membership ≡ w.membership
  membership-hear w [] = refl
  membership-hear w (v ∷ vs) = refl

  -- What an event says of the number of channels made.
  abbrev pub Makes : Event A → ℕ → ℕ → Type 0
  Makes (joined d) n n' = (d ≡ n) × (n' ≡ suc n)
  Makes _ n n' = n' ≡ n

  Makes-receive : (vs : List A) (s : MultiplexedChannel A) → (receive vs s).made ≡ s.made
  unfolding receive
  Makes-receive [] s = elim (Bool-cases s.source_is_closed) [
    | inl e ↦ rw e refl
    | inr e ↦ rw e refl
  ]
  Makes-receive (v ∷ vs) s = refl

  Makes-close_next :
      (i n : ℕ) (old : Option (List ℕ)) (s : MultiplexedChannel A)
      → (close_next i n old s).made ≡ s.made
  unfolding close_next close_channel
  Makes-close_next i n old s = elim (Bool-cases (i == n)) [
    | inl e ↦ rw e refl
    | inr e ↦ rw e (elim (Option-cases (get_elem? (array_of s.channels s.behind old) i)) [
      | inl g ↦ rw g refl
      | inr (d, g) ↦
          rw g
            (elim (Bool-cases (s.consumers d).is_closed) [ inl f ↦ rw f refl | inr f ↦ rw f refl ])
    ])
  ]

  Makes-advance :
      (f : FanOut A) (s : MultiplexedChannel A) → Makes (taken f) s.made (advance f s).made
  unfolding advance deliver
  Makes-advance receiving s = Makes-receive s.source s
  Makes-advance (holding v) s = refl
  Makes-advance (sending v []) s = refl
  Makes-advance (sending v (d ∷ rest)) s = refl
  Makes-advance exiting s = refl
  Makes-advance stored s = refl
  Makes-advance (closing i n old) s = Makes-close_next i n old s
  Makes-advance finished s = refl
  Makes-advance panicked s = refl

  Makes-append_call :
      (t : ℕ) (grows : Bool) (k : Call A) (s : MultiplexedChannel A)
      → Makes (appended s.made k) s.made (append_call t grows k s).made
  unfolding append_call
  Makes-append_call t grows idle s = refl
  Makes-append_call t grows forking s = (refl, refl)
  Makes-append_call t grows (forked d) s = refl
  Makes-append_call t grows refused s = refl
  Makes-append_call t grows (removing d) s = refl

  Makes-remove_call :
      (t : ℕ) (k : Call A) (s : MultiplexedChannel A)
      → Makes (removed k) s.made (remove_call t k s).made
  unfolding remove_call remove
  Makes-remove_call t idle s = refl
  Makes-remove_call t forking s = refl
  Makes-remove_call t (forked d) s = refl
  Makes-remove_call t refused s = refl
  Makes-remove_call t (removing d) s = elim (Bool-cases (is_member d s.channels)) [
    | inl e ↦ rw e refl
    | inr e ↦ rw e refl
  ]

  pub Makes-step :
      (m : Move A) (s : MultiplexedChannel A) → Makes (event m s) s.made (step m s).made
  unfolding step
  Makes-step (send_source v) s = elim (Bool-cases s.source_is_closed) [
    | inl e ↦ rw e refl
    | inr e ↦ rw e refl
  ]
  Makes-step close_source s = refl
  Makes-step go_on s = Makes-advance s.fan_out s
  Makes-step (call_fork t) s = refl
  Makes-step (lock_and_append t grows) s = elim (Bool-cases (is_read_locked s.fan_out)) [
    | inl e ↦ rw e refl
    | inr e ↦ rw e (Makes-append_call t grows (s.calls t) s)
  ]
  Makes-step (call_remove t) s = refl
  Makes-step (lock_and_remove t) s = elim (Bool-cases (is_read_locked s.fan_out)) [
    | inl e ↦ rw e refl
    | inr e ↦ rw e (Makes-remove_call t (s.calls t) s)
  ]

  -- A consumer is in the slice once at most, and not before its channel is made.
  abbrev pub IsOnce : MultiplexedChannel A → Type 0
  IsOnce s = (c : ℕ) → (count_of c s.channels ≤ 1) × (s.made ≤ c → count_of c s.channels ≡ 0)

  once_after :
      (c n n' k : ℕ) (e : Event A) (w : View A)
      → Makes e n n'
      → k ≡ (follow c e w).membership
      → (w.membership ≤ 1) × (n ≤ c → w.membership ≡ 0)
      → (k ≤ 1) × (n' ≤ c → k ≡ 0)
  once_after c n n' k (offered v) w m q h = once_still c n n' k w.membership q m h
  once_after c n n' k broadcast w m q h =
      once_still c n n' k w.membership (q ∙ membership-hear w w.to_come) m h
  once_after c n n' k (joined d) w m q h = elim (Bool-cases (d == c)) [
    | inl e ↦
        let p : d ≡ c = (==_iff d c).0 e in
        let z : w.membership ≡ 0 = h.1 (omega (arith, p, m.0)) in
        let r : k ≡ w.membership + 1 = rw e at q in
        (omega (arith, z, r), λ l. absurd (omega (arith, l, p, m.0, m.1)))
    | inr e ↦
        let r : k ≡ w.membership + 0 = rw e at q in
        (omega (arith, h.0, r), λ l. omega (arith, r, h.1 (omega (arith, l, m.1))))
  ]
  once_after c n n' k (left d) w m q h = elim (Bool-cases (d == c)) [
    | inl e ↦
        let r : k ≡ w.membership - 1 = rw e at q in
        (omega (arith, h.0, r), λ l. omega (arith, r, h.1 (omega (arith, l, m))))
    | inr e ↦
        let r : k ≡ w.membership - 0 = rw e at q in
        (omega (arith, h.0, r), λ l. omega (arith, r, h.1 (omega (arith, l, m))))
  ]
  once_after c n n' k nothing w m q h = once_still c n n' k w.membership q m h

  IsOnce-run : (ms : List (Move A)) (s : MultiplexedChannel A) → IsOnce s → IsOnce (run ms s)
  unfolding run
  IsOnce-run [] s h = h
  IsOnce-run (m ∷ ms) s h = IsOnce-run ms (step m s) (λ c.
      once_after c s.made (step m s).made (count_of c (step m s).channels) (event m s) (view c s)
        (Makes-step m s) (ap (λ w. w.membership) (view-step c m s)) (h c))

new-IsOnce : (A : Type 0) → IsOnce (new_multiplexed_channel {A = A})
unfolding new_multiplexed_channel
new-IsOnce A c = (omega arith, λ l. refl)

module _ {A : Type 0} where
  pub run-IsOnce : (ms : List (Move A)) → IsOnce (run ms new_multiplexed_channel)
  run-IsOnce ms = IsOnce-run ms new_multiplexed_channel (new-IsOnce A)
