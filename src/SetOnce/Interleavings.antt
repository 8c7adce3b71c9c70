-- ===== src/SetOnce/Interleavings.antt =====
-- What every interleaving of sets and waits keeps.
use aether_agent.Prelude.{
  ℕ, ◌≡◌, refl, sym, ◌∙◌, ◌≢◌, Bool, true, false, none, List, [], ◌∷◌, ◌==◌, Bool-cases,
  Option-cases, inl, inr,
}
use aether_agent.SetOnce.{
  Outcome, SetOnce, Call, idle, selecting, locking, finishing, set_returned, waiting, wait_returned,
  wait_cancelled, lock_and_set, advance, State, Move, start_set, start_wait, go_on, put_call, step,
  run, result,
}

module _ {A E : Type 0} where
  -- What a call has seen: once it is past the lock an outcome is set, and a wait got that outcome.
  abbrev pub Seen : SetOnce A E → Call A E → Type 0
  Seen s (finishing b) = s.res ≢ none
  Seen s (wait_returned o) = (o ≡ s.res) × (o ≢ none)
  Seen s other = Unit {0}

  pub record Settled (s : State A E) : Type 0 where
    pub done_set : s.once.done ≡ true → s.once.res ≢ none
    pub seen : (t : ℕ) → Seen s.once (s.calls t)

  -- Nothing is set later than the first outcome.
  abbrev pub Keeps : SetOnce A E → SetOnce A E → Type 0
  Keeps s t = s.res ≢ none → t.res ≡ s.res

  record Next (s : SetOnce A E) (r : Call A E × SetOnce A E) : Type 0 where
    keeps : Keeps s r.1
    done_set : r.1.done ≡ true → r.1.res ≢ none
    seen : Seen r.1 r.0

  lock_and_set-Next :
      (r : Outcome A E) (s : SetOnce A E)
      → (s.done ≡ true → s.res ≢ none)
      → Next s (lock_and_set r s)
  unfolding lock_and_set
  lock_and_set-Next r s h = elim (Option-cases s.res) [
    | inl p ↦
        simp (p, lock_and_set)
          (record { keeps = λ n. absurd (n p); done_set = λ e q. cc; seen = λ q. cc })
    | inr (q, p) ↦
        simp (p, lock_and_set) (record { keeps = λ n. refl; done_set = h; seen = λ e. cc })
  ]

  advance-Next :
      (context_taken : Bool) (c : Call A E) (s : SetOnce A E)
      → (s.done ≡ true → s.res ≢ none)
      → Seen s c
      → Next s (advance context_taken c s)
  unfolding advance result
  advance-Next x idle s h w = record { keeps = λ n. refl; done_set = h; seen = tt }
  advance-Next x (selecting r) s h w = elim (Bool-cases s.done) [
    | inl e ↦ simp e (record { keeps = λ n. refl; done_set = h; seen = h e })
    | inr e ↦ simp e (record { keeps = λ n. refl; done_set = h; seen = tt })
  ]
  advance-Next x (locking r) s h w = lock_and_set-Next r s h
  advance-Next x (finishing b) s h w = record { keeps = λ n. refl; done_set = λ e. w; seen = tt }
  advance-Next x (set_returned b) s h w = record { keeps = λ n. refl; done_set = h; seen = tt }
  advance-Next true waiting s h w = record { keeps = λ n. refl; done_set = h; seen = tt }
  advance-Next false waiting s h w = elim (Bool-cases s.done) [
    | inl e ↦ simp e (record { keeps = λ n. refl; done_set = h; seen = (refl, h e) })
    | inr e ↦ simp e (record { keeps = λ n. refl; done_set = h; seen = tt })
  ]
  advance-Next x (wait_returned o) s h w = record { keeps = λ n. refl; done_set = h; seen = w }
  advance-Next x wait_cancelled s h w = record { keeps = λ n. refl; done_set = h; seen = tt }

  Seen-Keeps : (s t : SetOnce A E) (c : Call A E) → Keeps s t → Seen s c → Seen t c
  Seen-Keeps s t idle k w = tt
  Seen-Keeps s t (selecting r) k w = tt
  Seen-Keeps s t (locking r) k w = tt
  Seen-Keeps s t (finishing b) k w = λ e. w (sym (k w) ∙ e)
  Seen-Keeps s t (set_returned b) k w = tt
  Seen-Keeps s t waiting k w = tt
  Seen-Keeps s t (wait_returned o) k w =
      let f : s.res ≢ none = λ e. w.1 (w.0 ∙ e) in (w.0 ∙ sym (k f), w.1)
  Seen-Keeps s t wait_cancelled k w = tt

  Seen-put_call :
      (s u : SetOnce A E) (f : ℕ → Call A E) (t : ℕ) (c : Call A E)
      → Keeps s u
      → Seen u c
      → ((i : ℕ) → Seen s (f i))
      → (i : ℕ) → Seen u (put_call f t c i)
  Seen-put_call s u f t c k w g i = elim (Bool-cases (t == i)) [
    | inl e ↦ rw e w
    | inr e ↦ rw e (Seen-Keeps s u (f i) k (g i))
  ]

  step-Settled :
      (m : Move A E) (s : State A E) → Settled s → Settled (step m s) × Keeps s.once (step m s).once
  unfolding step
  step-Settled (start_set t r) s w = (
    record {
      done_set = w.done_set;
      seen = Seen-put_call s.once s.once s.calls t (selecting r) (λ n. refl) tt w.seen;
    },
    λ n. refl,
  )
  step-Settled (start_wait t) s w = (
    record {
      done_set = w.done_set;
      seen = Seen-put_call s.once s.once s.calls t waiting (λ n. refl) tt w.seen;
    },
    λ n. refl,
  )
  step-Settled (go_on t x) s w =
      let n = advance-Next x (s.calls t) s.once w.done_set (w.seen t) in
      (
        record {
          done_set = n.done_set;
          seen =
              Seen-put_call s.once (advance x (s.calls t) s.once).1 s.calls t
                (advance x (s.calls t) s.once).0 n.keeps n.seen w.seen;
        },
        n.keeps,
      )

  -- From a state where `Done` is closed only with an outcome set, and what the calls have seen is
  -- so, every interleaving of sets and waits keeps that, and keeps an outcome that is set: every
  -- wait that returns without the context's error got the outcome that is set, never a NotSetError
  -- and never another one.
  pub run-Settled :
      (moves : List (Move A E)) (s : State A E)
      → Settled s
      → Settled (run moves s) × Keeps s.once (run moves s).once
  unfolding run
  run-Settled [] s w = (w, λ n. refl)
  run-Settled (m ∷ ms) s w =
      let (v, k) = step-Settled m s w in
      let (u, l) = run-Settled ms (step m s) v in (u, λ n. l (λ e. n (sym (k n) ∙ e)) ∙ k n)
