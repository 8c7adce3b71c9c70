-- ===== src/Process/Multiplex/Heard.antt =====
-- What a consumer of a multiplexed channel hears, against channels that broadcast at once.
use aether_agent.Prelude.{
  ℕ, suc, ◌+◌, Bool, Option, none, some, List, [], ◌∷◌, ◌++◌, ◌==◌, ==_iff, ◌≡◌, refl, ap, sym, ◌∙◌,
  arith, inl, inr, Bool-cases, Option-cases, replicate, append_assoc, append_nil, get_elem?,
}
use aether_agent.Process.Multiplex.{
  FanOut, receiving, holding, sending, exiting, stored, closing, finished, panicked, Call, idle,
  forking, forked, refused, removing, MultiplexedChannel, Move, send_source, close_source, go_on,
  call_fork, lock_and_append, call_remove, lock_and_remove, is_read_locked, deliver, close_channel,
  receive, close_next, advance, leave_array, append_channel, is_member, remove, append_call,
  remove_call, step, run, array_of,
}
use aether_agent.Process.Multiplex.Membership.{count_of, one_if, count_of-append, count_of-remove}
use aether_agent.Process.Multiplex.Views.{
  joined, in_hand, on_the_way, view, taken, appended, removed, event, events, follow, follow_all,
}

module _ {A : Type 0} where
  received_delivered :
      (c d n : ℕ) (v : A) (s : MultiplexedChannel A)
      → ((deliver v d s).consumers c).received ++ replicate n v
        ≡ (s.consumers c).received ++ replicate (one_if (d == c) + n) v
  unfolding deliver
  received_delivered c d n v s = elim (Bool-cases (d == c)) [
    | inl e ↦
        let q : d ≡ c = (==_iff d c).0 e in
        let k : 1 + n ≡ suc n = omega arith in
        rw (e, q, k) (append_assoc (s.consumers c).received (v ∷ []) (replicate n v))
    | inr e ↦ let k : 0 + n ≡ n = omega arith in rw (e, k)
  ]

  received-close_channel :
      (c d : ℕ) (next : FanOut A) (s : MultiplexedChannel A)
      → ((close_channel d next s).consumers c).received ≡ (s.consumers c).received
  unfolding close_channel
  received-close_channel c d next s = elim (Bool-cases (s.consumers d).is_closed) [
    | inl e ↦ rw e
    | inr e ↦ rw e (elim (Bool-cases (d == c)) [
      | inl f ↦ let q : d ≡ c = (==_iff d c).0 f in rw (f, q)
      | inr f ↦ rw f
    ])
  ]

  -- Nothing is in hand or on the way.
  abbrev IsQuiet : ℕ → FanOut A → Type 0
  IsQuiet c f = (in_hand f ≡ []) × (on_the_way c f ≡ [])

  view-close_channel :
      (c d : ℕ) (next : FanOut A) (s : MultiplexedChannel A)
      → IsQuiet c s.fan_out
      → IsQuiet c next
      → view c (close_channel d next s) ≡ view c s
  view-close_channel c d next s (h, k) (h', k') = rw (received-close_channel c d next s) (
      unfold close_channel in
      elim (Bool-cases (s.consumers d).is_closed) [
        | inl e ↦ rw (e, h, k) refl
        | inr e ↦ rw (e, h, k, h', k') refl
      ])

  view-close_next :
      (c i n : ℕ) (old : Option (List ℕ)) (s : MultiplexedChannel A)
      → IsQuiet c s.fan_out
      → view c (close_next i n old s) ≡ view c s
  unfolding close_next
  view-close_next c i n old s h = elim (Bool-cases (i == n)) [
    | inl e ↦ rw (e, h.0, h.1)
    | inr e ↦ rw e (elim (Option-cases (get_elem? (array_of s.channels s.behind old) i)) [
      | inl g ↦ rw g
      | inr (d, g) ↦ rw g (view-close_channel c d (closing (suc i) n old) s h (refl, refl))
    ])
  ]

  view-receive :
      (c : ℕ) (s : MultiplexedChannel A) (vs : List A)
      → s.fan_out ≡ receiving
      → s.source ≡ vs
      → view c (receive vs s) ≡ view c s
  unfolding receive
  view-receive c s [] h k = elim (Bool-cases s.source_is_closed) [
    | inl e ↦ rw (e, h)
    | inr e ↦ rw e
  ]
  view-receive c s (v ∷ vs) h k = rw (h, k)

  view-advance :
      (c : ℕ) (f : FanOut A) (s : MultiplexedChannel A)
      → s.fan_out ≡ f
      → view c (advance f s) ≡ follow c (taken f) (view c s)
  unfolding advance
  view-advance c receiving s h = view-receive c s s.source h refl
  view-advance c (holding v) s h = rw (h, append_nil)
  view-advance c (sending v []) s h = rw h
  view-advance c (sending v (d ∷ rest)) s h =
      let k : on_the_way c (sending v (d ∷ rest))
          ≡ replicate (one_if (d == c) + count_of c rest) v =
        elim (Bool-cases (d == c)) [
          | inl e ↦ let n : 1 + count_of c rest ≡ suc (count_of c rest) = omega arith in rw (e, n)
          | inr e ↦ let n : 0 + count_of c rest ≡ count_of c rest = omega arith in rw (e, n)
        ] in
      rw (h, k)
        (ap (λ w. record { to_come = s.source; membership = count_of c s.channels; heard = w })
          (received_delivered c d (count_of c rest) v s))
  view-advance c exiting s h = rw h
  view-advance c stored s h = rw h
  view-advance c (closing i n old) s h = view-close_next c i n old s (rw h (refl, refl))
  view-advance c finished s h = refl
  view-advance c panicked s h = refl

  hand-leave_array : (array : List ℕ) (f : FanOut A) → in_hand (leave_array array f) ≡ in_hand f
  unfolding leave_array
  hand-leave_array array receiving = refl
  hand-leave_array array (holding v) = refl
  hand-leave_array array (sending v rest) = refl
  hand-leave_array array exiting = refl
  hand-leave_array array stored = refl
  hand-leave_array array (closing i n none) = refl
  hand-leave_array array (closing i n (some a)) = refl
  hand-leave_array array finished = refl
  hand-leave_array array panicked = refl

  way-leave_array :
      (c : ℕ) (array : List ℕ) (f : FanOut A) → on_the_way c (leave_array array f) ≡ on_the_way c f
  unfolding leave_array
  way-leave_array c array receiving = refl
  way-leave_array c array (holding v) = refl
  way-leave_array c array (sending v rest) = refl
  way-leave_array c array exiting = refl
  way-leave_array c array stored = refl
  way-leave_array c array (closing i n none) = refl
  way-leave_array c array (closing i n (some a)) = refl
  way-leave_array c array finished = refl
  way-leave_array c array panicked = refl

  view-append_channel :
      (c d : ℕ) (grows : Bool) (s : MultiplexedChannel A)
      → view c (append_channel grows d s) ≡ follow c (joined d) (view c s)
  unfolding append_channel
  view-append_channel c d grows s = elim (Bool-cases grows) [
    | inl e ↦ rw (
      e,
      hand-leave_array (s.channels ++ s.behind) s.fan_out,
      way-leave_array c (s.channels ++ s.behind) s.fan_out,
      count_of-append c d s.channels,
    )
    | inr e ↦ rw (e, count_of-append c d s.channels)
  ]

  view-append_call :
      (c t : ℕ) (grows : Bool) (k : Call A) (s : MultiplexedChannel A)
      → view c (append_call t grows k s) ≡ follow c (appended s.made k) (view c s)
  unfolding append_call
  view-append_call c t grows idle s = refl
  view-append_call c t grows forking s = view-append_channel c s.made grows s
  view-append_call c t grows (forked d) s = refl
  view-append_call c t grows refused s = refl
  view-append_call c t grows (removing d) s = refl

  view-remove_call :
      (c t : ℕ) (k : Call A) (s : MultiplexedChannel A)
      → view c (remove_call t k s) ≡ follow c (removed k) (view c s)
  unfolding remove_call
  view-remove_call c t idle s = refl
  view-remove_call c t forking s = refl
  view-remove_call c t (forked d) s = refl
  view-remove_call c t refused s = refl
  view-remove_call c t (removing d) s = rw (count_of-remove c d s) (
      unfold remove in
      elim (Bool-cases (is_member d s.channels)) [ inl e ↦ rw e refl | inr e ↦ rw e refl ])

  pub view-step :
      (c : ℕ) (m : Move A) (s : MultiplexedChannel A)
      → view c (step m s) ≡ follow c (event m s) (view c s)
  unfolding step
  view-step c (send_source v) s = elim (Bool-cases s.source_is_closed) [
    | inl e ↦ rw e
    | inr e ↦ rw e (
        ap
          (λ w. record {
            to_come = w;
            membership = count_of c s.channels;
            heard = (s.consumers c).received ++ on_the_way c s.fan_out;
          })
          (sym (append_assoc (in_hand s.fan_out) s.source (v ∷ []))))
  ]
  view-step c close_source s = refl
  view-step c go_on s = view-advance c s.fan_out s refl
  view-step c (call_fork t) s = refl
  view-step c (lock_and_append t grows) s = elim (Bool-cases (is_read_locked s.fan_out)) [
    | inl e ↦ rw e
    | inr e ↦ rw e (view-append_call c t grows (s.calls t) s)
  ]
  view-step c (call_remove t) s = refl
  view-step c (lock_and_remove t) s = elim (Bool-cases (is_read_locked s.fan_out)) [
    | inl e ↦ rw e
    | inr e ↦ rw e (view-remove_call c t (s.calls t) s)
  ]

  pub run-view :
      (c : ℕ) (ms : List (Move A)) (s : MultiplexedChannel A)
      → view c (run ms s) ≡ follow_all c (events ms s) (view c s)
  unfolding run
  run-view c [] s = refl
  run-view c (m ∷ ms) s =
      run-view c ms (step m s) ∙ ap (follow_all c (events ms (step m s))) (view-step c m s)
