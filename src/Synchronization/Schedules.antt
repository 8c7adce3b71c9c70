-- ===== src/Synchronization/Schedules.antt =====
-- What goroutines that share a pool do to it in any schedule: a value of the pool and of what is
-- still to be done, which every step keeps, is the same at the end.
use aether_agent.Prelude.{
  ℕ, zero, suc, Bool, true, false, ◌||◌, List, [], ◌∷◌, ◌≡◌, refl, ap, sym, ◌∙◌,
}
use aether_agent.Synchronization.{step_at, run_schedule, wait_all, run_all}

-- Whether some goroutine has something to do.
abbrev pub any : {W : Type 0} → (W → Bool) → List W → Bool
any pending [] = false
any pending (w ∷ ws) = pending w || any pending ws

pub or_swap : (a b c : Bool) → ((a || b) || c) ≡ (b || (a || c))
or_swap true true c = refl
or_swap true false c = refl
or_swap false true c = refl
or_swap false false c = refl

or_assoc : (a b c : Bool) → ((a || b) || c) ≡ (a || (b || c))
or_assoc true b c = refl
or_assoc false b c = refl

pub or_false : (a : Bool) → (a || false) ≡ a
or_false true = refl
or_false false = refl

module _ {W Pool : Type 0} (advance : W → Pool → W × Pool) (pending : W → Bool)
    (is_in : Pool → Bool) (value : Bool → Bool → Bool)
    (keeps : (w : W) (p : Pool) (rest : Bool)
      → value (is_in (advance w p).1) (pending (advance w p).0 || rest)
        ≡ value (is_in p) (pending w || rest))
    (ends : (w : W) (p : Pool) → pending (advance (advance w p).0 (advance w p).1).0 ≡ false) where
  step_at_keeps :
      (i : ℕ) (ws : List W) (p : Pool) (rest : Bool)
      → value (is_in (step_at advance i ws p).1) (any pending (step_at advance i ws p).0 || rest)
        ≡ value (is_in p) (any pending ws || rest)
  unfolding step_at
  step_at_keeps i [] p rest = refl
  step_at_keeps zero (w ∷ ws) p rest =
      rw
        (
          or_assoc (pending (advance w p).0) (any pending ws) rest,
          or_assoc (pending w) (any pending ws) rest,
        )
        (keeps w p (any pending ws || rest))
  step_at_keeps (suc i) (w ∷ ws) p rest =
      rw
        (
          or_swap (pending w) (any pending (step_at advance i ws p).0) rest,
          or_swap (pending w) (any pending ws) rest,
        )
        (step_at_keeps i ws p (pending w || rest))

  run_schedule_keeps :
      (is : List ℕ) (ws : List W) (p : Pool)
      → value
          (is_in (run_schedule advance is ws p).1)
          (any pending (run_schedule advance is ws p).0)
        ≡ value (is_in p) (any pending ws)
  unfolding run_schedule
  run_schedule_keeps [] ws p = refl
  run_schedule_keeps (i ∷ is) ws p =
      run_schedule_keeps is (step_at advance i ws p).0 (step_at advance i ws p).1
      ∙ (let k = step_at_keeps i ws p false in
          ap (value (is_in (step_at advance i ws p).1))
            (sym (or_false (any pending (step_at advance i ws p).0)))
          ∙ k
          ∙ ap (value (is_in p)) (or_false (any pending ws)))

  wait_all_keeps :
      (ws : List W) (p : Pool)
      → value (is_in (wait_all advance ws p)) false ≡ value (is_in p) (any pending ws)
  unfolding wait_all
  wait_all_keeps [] p = refl
  wait_all_keeps (w ∷ ws) p =
      let w' = (advance w p).0 in
      let p' = (advance w p).1 in
      let two : value (is_in (advance w' p').1) (pending (advance w' p').0 || any pending ws)
          ≡ value (is_in p) (pending w || any pending ws) =
        keeps w' p' (any pending ws) ∙ keeps w p (any pending ws) in
      wait_all_keeps ws (advance w' p').1
      ∙ ap (λ b. value (is_in (advance w' p').1) (b || any pending ws)) (sym (ends w p))
      ∙ two

  pub run_all_keeps :
      (is : List ℕ) (ws : List W) (p : Pool)
      → value (is_in (run_all advance is ws p)) false ≡ value (is_in p) (any pending ws)
  unfolding run_all
  run_all_keeps is ws p =
      wait_all_keeps (run_schedule advance is ws p).0 (run_schedule advance is ws p).1
      ∙ run_schedule_keeps is ws p
