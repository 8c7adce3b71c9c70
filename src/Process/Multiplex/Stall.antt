-- ===== src/Process/Multiplex/Stall.antt =====
-- A multiplexed channel while one of its consumers does not take the value that is sent to it.
use aether_agent.Prelude.{
  ℕ, true, List, [], ◌∷◌, ◌==◌, ==_iff, ◌≡◌, refl, ◌∙◌, inl, inr, Bool-cases, All,
}
use aether_agent.Process.Multiplex.{
  idle, forking, forked, refused, sending, Call, removing, MultiplexedChannel, Move, send_source,
  close_source, go_on, call_fork, lock_and_append, call_remove, lock_and_remove, put_at, fork,
  cancel, is_read_locked, step, run,
}

-- Any move but the one with which the consumer takes the value.
abbrev pub IsNoStep : {A : Type 0} → Move A → Type 0
IsNoStep go_on = ⊥
IsNoStep _ = Unit

-- A call that waits to remove a channel still does.
abbrev pub StillRemoves : {A : Type 0} → Call A → Call A → Type 0
StillRemoves (removing d) k = k ≡ removing d
StillRemoves _ k = Unit

module _ {A : Type 0} where
  removes_same : (k k' : Call A) → ((d : ℕ) → k ≡ removing d → k' ≡ removing d) → StillRemoves k k'
  removes_same idle k' h = tt
  removes_same forking k' h = tt
  removes_same (forked d) k' h = tt
  removes_same refused k' h = tt
  removes_same (removing d) k' h = h d refl

  abbrev pub IsStalled : MultiplexedChannel A → MultiplexedChannel A → Type 0
  IsStalled s s' =
      (s'.fan_out ≡ s.fan_out)
      × (s'.channels ≡ s.channels)
      × ((d : ℕ) → s'.consumers d ≡ s.consumers d)
      × ((t : ℕ) → StillRemoves (s.calls t) (s'.calls t))

  abbrev IsHeld : MultiplexedChannel A → MultiplexedChannel A → Type 0
  IsHeld s s' =
      (s'.fan_out ≡ s.fan_out)
      × (s'.channels ≡ s.channels)
      × ((d : ℕ) → s'.consumers d ≡ s.consumers d)
      × ((t d : ℕ) → s.calls t ≡ removing d → s'.calls t ≡ removing d)

  put_at-kept :
      (f : Call A → Call A) (calls : ℕ → Call A) (t u d : ℕ)
      → f (removing d) ≡ removing d
      → calls u ≡ removing d
      → put_at calls t (f (calls t)) u ≡ removing d
  put_at-kept f calls t u d h e = elim (Bool-cases (t == u)) [
    | inl q ↦ let p : t ≡ u = (==_iff t u).0 q in rw (q, p, e, h)
    | inr q ↦ rw (q, e)
  ]

  step_stalls :
      (m : Move A) (s : MultiplexedChannel A)
      → is_read_locked s.fan_out ≡ true
      → IsNoStep m
      → IsHeld s (step m s)
  unfolding step
  step_stalls (send_source v) s h k = elim (Bool-cases s.source_is_closed) [
    | inl e ↦ rw e (refl, refl, λ d. refl, λ t d e. e)
    | inr e ↦ rw e (refl, refl, λ d. refl, λ t d e. e)
  ]
  step_stalls close_source s h k = (refl, refl, λ d. refl, λ t d e. e)
  step_stalls go_on s h k = absurd k
  step_stalls (call_fork t) s h k = (
    refl,
    refl,
    λ d. refl,
    λ u d e. put_at-kept (fork s.exited) s.calls t u d (unfold fork in refl) e,
  )
  step_stalls (lock_and_append t grows) s h k = rw h (refl, refl, λ d. refl, λ u d e. e)
  step_stalls (call_remove t) s h k =
      (refl, refl, λ d. refl, λ u d e. put_at-kept cancel s.calls t u d (unfold cancel in refl) e)
  step_stalls (lock_and_remove t) s h k = rw h (refl, refl, λ d. refl, λ u d e. e)

  run-IsHeld :
      (ms : List (Move A)) (s : MultiplexedChannel A) (v : A) (c : ℕ) (rest : List ℕ)
      → s.fan_out ≡ sending v (c ∷ rest)
      → All IsNoStep ms
      → IsHeld s (run ms s)
  unfolding run
  run-IsHeld [] s v c rest h k = (refl, refl, λ d. refl, λ t d e. e)
  run-IsHeld (m ∷ ms) s v c rest h k =
      let locked : is_read_locked s.fan_out ≡ true = rw h (unfold is_read_locked in refl) in
      let (f, cs, us, ks) = step_stalls m s locked k.0 in
      let (f', cs', us', ks') = run-IsHeld ms (step m s) v c rest (f ∙ h) k.1 in
      (f' ∙ f, cs' ∙ cs, λ d. us' d ∙ us d, λ t d e. ks' t d (ks t d e))

  -- While the consumer whose turn it is does not take its value, no other move gets further:
  -- whatever is sent, forked or cancelled, the goroutine stays at this send, no channel joins or
  -- leaves, no consumer gets anything, and every call that waits to remove a channel still waits,
  -- that of this consumer included.
  pub run-IsStalled :
      (ms : List (Move A)) (s : MultiplexedChannel A) (v : A) (c : ℕ) (rest : List ℕ)
      → s.fan_out ≡ sending v (c ∷ rest)
      → All IsNoStep ms
      → IsStalled s (run ms s)
  run-IsStalled ms s v c rest h k =
      let (f, cs, us, ks) = run-IsHeld ms s v c rest h k in
      (f, cs, us, λ t. removes_same (s.calls t) ((run ms s).calls t) (ks t))
