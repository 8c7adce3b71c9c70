-- ===== src/Rollback/Examples.antt =====
-- Updates of a number.
use aether_agent.Prelude.{ℕ, ◌+◌, ◌-◌, ◌≡◌, refl, arith, none, some, List, [], ◌∷◌}
use aether_agent.Rollback.{Update, applied, failed, apply_all_or_none, apply_loop, roll_back}
use aether_agent.Rollback.Undone.{AllOrNone, apply_all_or_none_lem}

abbrev add_two : Update ℕ ℕ
add_two n = (n + 2, applied (some (λ m. m - 2)))

abbrev look : Update ℕ ℕ
look n = (n, applied none)

abbrev fail : Update ℕ ℕ
fail n = (n, failed 7)

abbrev three_updates : List (Update ℕ ℕ)
three_updates = add_two ∷ look ∷ fail ∷ []

apply_all_or_none_lem_example : AllOrNone three_updates 5 5 (apply_all_or_none three_updates 5)
apply_all_or_none_lem_example =
    apply_all_or_none_lem three_updates 5 ((λ n. omega arith), ((λ n. refl), ((λ n. refl), tt)))

three_updates-undone : apply_all_or_none three_updates 5 ≡ (5, some 7)
unfolding apply_all_or_none apply_loop roll_back
three_updates-undone = refl
