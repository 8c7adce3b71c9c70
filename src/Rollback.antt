-- ===== src/Rollback.antt =====
-- packages/shared/pkg/utils/apply_all_or_none.go. An update is a function on the state that the
-- updates share, and a rollback too; the context has no part in the order. The rollbacks are kept
-- the latest first.
pub mod Undone
mod Examples
use aether_agent.Prelude.{Option, none, some, List, [], ◌∷◌}

-- What an update returns: a rollback, or nil, or an error.
pub data Answer (W E : Type 0) : Type 0 where
  applied : Option (W → W) → Answer W E
  failed : E → Answer W E

abbrev pub Update : Type 0 → Type 0 → Type 0
Update W E = W → W × Answer W E

module _ {W : Type 0} where
  unfoldable pub roll_back : List (W → W) → W → W
  roll_back [] w = w
  roll_back (r ∷ rs) w = roll_back rs (r w)

  abbrev pub add_rollback : Option (W → W) → List (W → W) → List (W → W)
  add_rollback none rs = rs
  add_rollback (some r) rs = r ∷ rs

module _ {W E : Type 0} where
  -- The loop over the updates that are left.
  unfoldable pub apply_loop : List (W → W) → List (Update W E) → W → W × Option E
  apply_loop rollbacks [] w = (w, none)
  apply_loop rollbacks (update ∷ updates) w = elim (update w).1 [
    | failed e ↦ (roll_back rollbacks (update w).0, some e)
    | applied r ↦ apply_loop (add_rollback r rollbacks) updates (update w).0
  ]

  unfoldable pub apply_all_or_none : List (Update W E) → W → W × Option E
  apply_all_or_none updates w = apply_loop [] updates w
