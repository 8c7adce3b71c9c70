-- ===== src/Rollback/Undone.antt =====
-- All updates, or none.
use aether_agent.Prelude.{
  ◌≡◌, refl, ap, ◌∙◌, subst, ◌⊎◌, inl, inr, Option, none, some, List, [], ◌∷◌, All,
}
use aether_agent.Rollback.{
  Answer, applied, failed, Update, roll_back, apply_loop, apply_all_or_none,
}

module _ {W E : Type 0} where
  -- A rollback takes the state back, and without one nothing was changed.
  abbrev pub IsUndone : W → W × Answer W E → Type 0
  IsUndone w (v, applied none) = v ≡ w
  IsUndone w (v, applied (some r)) = r v ≡ w
  IsUndone w (v, failed e) = v ≡ w

  abbrev pub Undoes : Update W E → Type 0
  Undoes u = (w : W) → IsUndone w (u w)

  -- The updates one after the other.
  abbrev pub run_all : List (Update W E) → W → W
  run_all [] w = w
  run_all (u ∷ us) w = run_all us (u w).0

  abbrev pub AllOrNone : List (Update W E) → W → W → W × Option E → Type 0
  AllOrNone us w start r =
      ((r.1 ≡ none) × (r.0 ≡ run_all us w)) ⊎ ((e : E) × (r.1 ≡ some e) × (r.0 ≡ start))

  answer_cases :
      (a : Answer W E)
      → (a ≡ applied none) ⊎ (((r : W → W) × (a ≡ applied (some r))) ⊎ ((e : E) × (a ≡ failed e)))
  answer_cases (applied none) = inl refl
  answer_cases (applied (some r)) = inr (inl (r, refl))
  answer_cases (failed e) = inr (inr (e, refl))

  IsUndone-at : (w v : W) (a b : Answer W E) → IsUndone w (v, a) → a ≡ b → IsUndone w (v, b)
  IsUndone-at w v a b h e = subst (λ c. IsUndone w (v, c)) e h

  apply_loop_lem :
      (rollbacks : List (W → W)) (us : List (Update W E)) (w start : W)
      → All Undoes us
      → roll_back rollbacks w ≡ start
      → AllOrNone us w start (apply_loop rollbacks us w)
  unfolding apply_loop roll_back
  apply_loop_lem rs [] w start h k = inl (refl, refl)
  apply_loop_lem rs (u ∷ us) w start h k = elim (answer_cases (u w).1) [
    | inl p ↦
        let q = IsUndone-at w (u w).0 (u w).1 (applied none) (h.0 w) p in
        rw (p, apply_loop) (apply_loop_lem rs us (u w).0 start h.1 (ap (roll_back rs) q ∙ k))
    | inr (inl (r, p)) ↦
        let q = IsUndone-at w (u w).0 (u w).1 (applied (some r)) (h.0 w) p in
        rw (p, apply_loop) (apply_loop_lem (r ∷ rs) us (u w).0 start h.1 (ap (roll_back rs) q ∙ k))
    | inr (inr (e, p)) ↦
        let q = IsUndone-at w (u w).0 (u w).1 (failed e) (h.0 w) p in
        rw (p, apply_loop) (inr (e, refl, ap (roll_back rs) q ∙ k))
  ]

  -- For updates that change nothing without returning a rollback, and whose rollbacks, run on the
  -- state that the update left, take it back, `ApplyAllOrNone` either returns no error, with every
  -- update applied in order, or an error, with the state as it was before the first update.
  pub apply_all_or_none_lem :
      (us : List (Update W E)) (w : W) → All Undoes us → AllOrNone us w w (apply_all_or_none us w)
  unfolding apply_all_or_none roll_back
  apply_all_or_none_lem us w h = apply_loop_lem [] us w w h refl
