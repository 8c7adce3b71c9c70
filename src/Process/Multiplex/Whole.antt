-- ===== src/Process/Multiplex/Whole.antt =====
-- A member of a multiplexed channel hears every value, once and in order.
use aether_agent.Prelude.{
  le_or_lt, ◌<◌, All, ℕ, true, false, List, [], ◌∷◌, ◌++◌, ◌==◌, ==_iff, ◌≡◌, ◌≤◌, refl, ap, sym,
  ◌∙◌, arith, inl, inr, Bool-cases, append_assoc, append_nil,
}
use aether_agent.Process.Multiplex.{
  new_multiplexed_channel, MultiplexedChannel, Move, is_member, step, run,
}
use aether_agent.Process.Multiplex.Membership.{count_of-is_member, count_of}
use aether_agent.Process.Multiplex.Views.{
  Event, offered, broadcast, joined, left, nothing, View, view, event, events, hear, follow,
}
use aether_agent.Process.Multiplex.Heard.{view-step}
use aether_agent.Process.Multiplex.Once.{membership-hear, Makes, Makes-step, run-IsOnce}

-- The values that a run offers.
abbrev pub offers : {A : Type 0} → List (Event A) → List A
offers [] = []
offers (offered v ∷ es) = v ∷ offers es
offers (_ ∷ es) = offers es

-- The events leave the consumer's membership alone.
abbrev IsStill : {A : Type 0} → ℕ → Event A → Type 0
IsStill c (joined d) = (d == c) ≡ false
IsStill c (left d) = (d == c) ≡ false
IsStill c _ = Unit

-- The consumer stays a member.
abbrev pub IsStaying : {A : Type 0} → ℕ → Event A → Type 0
IsStaying c (left d) = (d == c) ≡ false
IsStaying c _ = Unit

module _ {A : Type 0} where
  -- What the consumer has heard and will hear.
  abbrev pub ledger : View A → List A
  ledger w = w.heard ++ w.to_come

  ledger-hear :
      (w : View A) (vs : List A) → w.to_come ≡ vs → w.membership ≡ 1 → ledger (hear vs w) ≡ ledger w
  ledger-hear w [] h k = refl
  ledger-hear w (v ∷ vs) h k = rw (k, h) (append_assoc w.heard (v ∷ []) vs)

  ledger-follow :
      (c : ℕ) (e : Event A) (es : List (Event A)) (w : View A)
      → IsStill c e
      → w.membership ≡ 1
      → ledger (follow c e w) ++ offers es ≡ ledger w ++ offers (e ∷ es)
  ledger-follow c (offered v) es w h k =
      rw (sym (append_assoc w.heard w.to_come (v ∷ [])))
        (append_assoc (w.heard ++ w.to_come) (v ∷ []) (offers es))
  ledger-follow c broadcast es w h k = ap (λ t. t ++ offers es) (ledger-hear w w.to_come refl k)
  ledger-follow c (joined d) es w h k = refl
  ledger-follow c (left d) es w h k = refl
  ledger-follow c nothing es w h k = refl

  membership-follow :
      (c : ℕ) (e : Event A) (w : View A) → IsStill c e → (follow c e w).membership ≡ w.membership
  membership-follow c (offered v) w h = refl
  membership-follow c broadcast w h = membership-hear w w.to_come
  membership-follow c (joined d) w h = rw h (omega arith)
  membership-follow c (left d) w h = rw h (omega arith)
  membership-follow c nothing w h = refl

  -- An event leaves a member a member, and one whose channel was made before.
  stays : (c n n' : ℕ) (e : Event A) → c < n → Makes e n n' → IsStaying c e → IsStill c e × (c < n')
  stays c n n' (offered v) l m h = (tt, omega (arith, l, m))
  stays c n n' broadcast l m h = (tt, omega (arith, l, m))
  stays c n n' (joined d) l m h = elim (Bool-cases (d == c)) [
    | inl e ↦ absurd (let p : d ≡ c = (==_iff d c).0 e in omega (arith, p, l, m.0))
    | inr e ↦ (e, omega (arith, l, m.1))
  ]
  stays c n n' (left d) l m h = (h, omega (arith, l, m))
  stays c n n' nothing l m h = (tt, omega (arith, l, m))

  hears :
      (c : ℕ) (ms : List (Move A)) (s : MultiplexedChannel A)
      → count_of c s.channels ≡ 1
      → c < s.made
      → All (IsStaying c) (events ms s)
      → ledger (view c (run ms s)) ≡ ledger (view c s) ++ offers (events ms s)
  unfolding run
  hears c [] s k l h = sym (append_nil _)
  hears c (m ∷ ms) s k l h =
      let (still, l') = stays c s.made (step m s).made (event m s) l (Makes-step m s) h.0 in
      let v = view-step c m s in
      let k' : count_of c (step m s).channels ≡ 1 =
        ap (λ w. w.membership) v ∙ membership-follow c (event m s) (view c s) still ∙ k in
      hears c ms (step m s) k' l' h.1
      ∙ ap (λ w. ledger w ++ offers (events ms (step m s))) v
      ∙ ledger-follow c (event m s) (events ms (step m s)) (view c s) still k

  -- For every interleaving from a new channel, and every one that follows in which a member is not
  -- removed: what the member's reader has received, with the value on its way to it, and the
  -- values that the channel still has to send, are what these were before and, behind them, the
  -- values that were sent to `Source` since. So a member gets every value, once and in order,
  -- whoever else forks or leaves.
  pub run-hears :
      (c : ℕ) (before after : List (Move A))
      → is_member c (run before new_multiplexed_channel).channels ≡ true
      → All (IsStaying c) (events after (run before new_multiplexed_channel))
      → ledger (view c (run after (run before new_multiplexed_channel)))
        ≡ ledger (view c (run before new_multiplexed_channel))
          ++ offers (events after (run before new_multiplexed_channel))
  run-hears c before after h k =
      let s = run before new_multiplexed_channel in
      let once = run-IsOnce before c in
      let one : 1 ≤ count_of c s.channels = count_of-is_member c s.channels h in
      let low : c < s.made = elim (le_or_lt s.made c) [
        | inl l ↦ absurd (omega (arith, one, once.1 l))
        | inr l ↦ l
      ] in
      hears c after s (omega (arith, one, once.0)) low k
