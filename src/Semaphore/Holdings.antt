-- ===== src/Semaphore/Holdings.antt =====
-- What is held of a semaphore in every order of its operations.
use aether_agent.Prelude.{
  ℕ, ◌+◌, ◌-◌, ◌^◌, ◌≤◌, ◌<◌, ◌≡◌, refl, sym, ◌∙◌, subst, Bool, true, false, List, [], ◌∷◌, All,
  arith, Option, some, none, Option-cases, Bool-cases, inl, inr, i64_max, add64, add64_small,
  sub64_small, lt64_small, lt64, is_positive64, if◌then◌else◌, ◌⊎◌, ltb, leb, ◌&&◌,
}
use aether_agent.Semaphore.{
  AdjustableSemaphore, Round, acquired, waits, cancelled_error, is_over, take_slots, acquire_round,
  try_acquire, set_limit, release, Move, acquire_move, try_move, limit_move, release_move, step,
  run,
}

-- Counts and limits of at most `bound`; a limit that is not positive is refused.
abbrev pub Asks : ℕ → Move → Type 0
Asks bound (acquire_move n x) = n ≤ bound
Asks bound (try_move n) = n ≤ bound
Asks bound (limit_move l) = l ≤ bound
Asks bound (release_move n) = n ≤ bound

abbrev pub Within : ℕ → AdjustableSemaphore → Type 0
Within bound s = (s.used ≤ bound) × (s.limit ≤ bound)

-- What a move asks for, and whether it is granted: `Acquire` or `TryAcquire` says so.
abbrev pub amount : Move → ℕ
amount (acquire_move n x) = n
amount (try_move n) = n
amount other = 0

abbrev pub is_acquired : Round → Bool
is_acquired acquired = true
is_acquired other = false

abbrev pub is_granted : Move → AdjustableSemaphore → Bool
is_granted (acquire_move n x) s = is_acquired (acquire_round x n s).0
is_granted (try_move n) s = (try_acquire n s).0
is_granted other s = false

-- What is granted fits below the limit, and what is not is nothing, or does not fit.
abbrev pub Decision : Bool → ℕ → AdjustableSemaphore → Type 0
Decision true n s = s.used + n ≤ s.limit
Decision false n s = (n ≡ 0) ⊎ (s.limit < s.used + n)

abbrev pub move_takes : Move → AdjustableSemaphore → ℕ
move_takes m s = if is_granted m s then amount m else 0

abbrev pub move_gives : Move → ℕ
move_gives (release_move n) = n
move_gives other = 0

-- What a run takes, and what its releases give back.
unfoldable pub run_takes : List Move → AdjustableSemaphore → ℕ
run_takes [] s = 0
run_takes (m ∷ ms) s = move_takes m s + elim (step m s) [ none ↦ 0 | some t ↦ run_takes ms t ]

-- Each move of a run is decided by the limit of its time.
unfoldable pub AreDecided : List Move → AdjustableSemaphore → Type 0
AreDecided [] s = Unit {0}
AreDecided (m ∷ ms) s =
    Decision (is_granted m s) (amount m) s
    × elim (step m s) [ none ↦ Unit {0} | some t ↦ AreDecided ms t ]

unfoldable pub run_gives : List Move → ℕ
run_gives [] = 0
run_gives (m ∷ ms) = move_gives m + run_gives ms

module _ (bound : ℕ) (small : bound < 2 ^ 62) where
  positive_lem : (n : ℕ) → n ≤ bound → is_positive64 n ≡ ltb 0 n
  unfolding is_positive64
  positive_lem n h = ground arith

  is_over_lem :
      (n : ℕ) (s : AdjustableSemaphore)
      → Within bound s
      → n ≤ bound
      → is_over n s ≡ ltb s.limit (s.used + n)
  unfolding is_over
  is_over_lem n s w h = ground (arith, add64_small s.used n, lt64_small s.limit (s.used + n))

  -- A move keeps the bounds, and changes what is held by what it takes and gives back.
  abbrev Moved : Move → AdjustableSemaphore → AdjustableSemaphore → Type 0
  Moved m s t =
      Within bound t
      × (t.used + move_gives m ≡ s.used + move_takes m s)
      × Decision (is_granted m s) (amount m) s

  acquire-Moved :
      (n : ℕ) (x : Bool) (s : AdjustableSemaphore)
      → Within bound s
      → n ≤ bound
      → Moved (acquire_move n x) s (acquire_round x n s).1
  unfolding acquire_round take_slots
  acquire-Moved n x s w h =
      rw (positive_lem n h, is_over_lem n s w h) (ground (arith, add64_small s.used n))

  try-Moved :
      (n : ℕ) (s : AdjustableSemaphore)
      → Within bound s
      → n ≤ bound
      → Moved (try_move n) s (try_acquire n s).1
  unfolding try_acquire take_slots
  try-Moved n s w h =
      rw (move_takes, is_granted, positive_lem n h, is_over_lem n s w h)
        (ground (arith, add64_small s.used n))

  limit-Moved :
      (l : ℕ) (s : AdjustableSemaphore)
      → Within bound s
      → l ≤ bound
      → Moved (limit_move l) s (set_limit l s).1
  unfolding set_limit
  limit-Moved l s w h = rw (positive_lem l h) (ground arith)

  release-Moved :
      (n : ℕ) (s t : AdjustableSemaphore)
      → Within bound s
      → n ≤ bound
      → release n s ≡ some t
      → Moved (release_move n) s t
  unfolding release
  release-Moved n s t w h e = elim (Bool-cases (ltb 0 n && leb n s.used)) [
    | inl p ↦
        let q : ◌≡◌ {A = Option AdjustableSemaphore} (some (record s { used = s.used - n }))
            (some t) =
          rw p at (sym (release_cases n s w h) ∙ e) in
        let u : ◌≡◌ {A = AdjustableSemaphore} (record s { used = s.used - n }) t = cc in
        subst (Moved (release_move n) s) u (ground arith)
    | inr p ↦
        let q : ◌≡◌ {A = Option AdjustableSemaphore} none (some t) =
          rw p at (sym (release_cases n s w h) ∙ e) in
        cc
  ]
    where
      release_cases :
          (n : ℕ) (s : AdjustableSemaphore)
          → Within bound s
          → n ≤ bound
          → release n s
            ≡ (if ltb 0 n && leb n s.used then some (record s { used = s.used - n }) else none)
      release_cases n s w h =
          rw (positive_lem n h, lt64_small s.used n (omega arith) (omega arith))
            (ground (arith, sub64_small s.used n))

  some-Moved :
      (m : Move) (s t u : AdjustableSemaphore)
      → Moved m s t
      → ◌≡◌ {A = Option AdjustableSemaphore} (some t) (some u)
      → Moved m s u
  some-Moved m s t u w e = let q : t ≡ u = cc in subst (Moved m s) q w

  step-Moved :
      (m : Move) (s t : AdjustableSemaphore)
      → Within bound s
      → Asks bound m
      → step m s ≡ some t
      → Moved m s t
  unfolding step
  step-Moved (acquire_move n x) s t w h e =
      some-Moved (acquire_move n x) s _ t (acquire-Moved n x s w h) e
  step-Moved (try_move n) s t w h e = some-Moved (try_move n) s _ t (try-Moved n s w h) e
  step-Moved (limit_move l) s t w h e = some-Moved (limit_move l) s _ t (limit-Moved l s w h) e
  step-Moved (release_move n) s t w h e = release-Moved n s t w h e

  -- For counts and limits up to a bound below 2 ^ 62, every order of rounds of `Acquire`, of
  -- `TryAcquire`, `SetLimit` and `Release` in which no release panics keeps what is held and the
  -- limit between 0 and the bound, and what is held at the end, with what the releases gave back,
  -- is what was held before and the counts of the acquisitions that returned a grant. Each grant
  -- fitted below the limit of its time, and each acquisition that returned none asked for nothing
  -- or did not fit.
  pub run-run_takes :
      (moves : List Move) (s t : AdjustableSemaphore)
      → Within bound s
      → All (Asks bound) moves
      → run moves s ≡ some t
      → Within bound t
        × (t.used + run_gives moves ≡ s.used + run_takes moves s)
        × AreDecided moves s
  unfolding run run_takes run_gives AreDecided
  run-run_takes [] s t w h e = let q : s ≡ t = cc in rw (← q) (w, refl, tt)
  run-run_takes (m ∷ ms) s t w h e = elim (Option-cases (step m s)) [
    | inl p ↦ cc (rw (p, run) at e)
    | inr (u, p) ↦
        let (v, f, d) = step-Moved m s u w h.0 p in
        let (x, g, ds) = run-run_takes ms u t v h.1 (rw (p, run) at e) in
        (x, rw (p, run_takes) (omega (arith, f, g)), (d, rw (p, AreDecided) ds))
  ]

  -- For a positive count, and count, limit and what is held up to a bound below 2 ^ 62,
  -- `TryAcquire` grants just when the sum of count and held is at most the limit, and then adds
  -- the count to what is held, and else nothing. A round of `Acquire` takes the same decision and
  -- leaves the same state; where it is not granted it returns the error of a cancelled context,
  -- and waits otherwise.
  try_acquire_lem :
      (n : ℕ) (s : AdjustableSemaphore)
      → Within bound s
      → n ≤ bound
      → 0 < n
      → ((try_acquire n s).0 ≡ leb (s.used + n) s.limit)
        × ((try_acquire n s).1.used ≡ (if leb (s.used + n) s.limit then s.used + n else s.used))
        × ((acquire_round true n s).0
            ≡ (if leb (s.used + n) s.limit then acquired else cancelled_error))
        × ((acquire_round false n s).0 ≡ (if leb (s.used + n) s.limit then acquired else waits))
        × ((acquire_round false n s).1 ≡ (try_acquire n s).1)
  unfolding try_acquire acquire_round take_slots
  try_acquire_lem n s w h p =
      rw (positive_lem n h, is_over_lem n s w h) (ground (arith, add64_small s.used n))

-- For int64s, if the sum of a positive count and what is held is 2 ^ 63 or more, it wraps, and
-- `TryAcquire` grants the count though it is above the limit.
try_acquire_wraps :
    (n : ℕ) (s : AdjustableSemaphore)
    → s.used < i64_max
    → s.limit < i64_max
    → 0 < n
    → n < i64_max
    → i64_max ≤ s.used + n
    → ((try_acquire n s).0 ≡ true) × (s.limit < s.used + n)
unfolding try_acquire is_over is_positive64 lt64 add64
try_acquire_wraps n s a b c d e = ground arith
