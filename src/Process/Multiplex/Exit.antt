-- ===== src/Process/Multiplex/Exit.antt =====
-- How a multiplexed channel closes the channels of its consumers.
use aether_agent.Prelude.{
  All, append_nil, ℕ, suc, ◌+◌, ◌≤◌, true, false, none, some, List, [], ◌∷◌, ◌++◌, ◌==◌, ==_iff,
  ◌≡◌, refl, ap, sym, ◌∙◌, arith, inl, inr, Bool-cases, get_elem?, length, replicate, append_assoc,
  length-append,
}
use aether_agent.Process.Multiplex.{
  stored, closing, finished, MultiplexedChannel, new_multiplexed_channel, Move, go_on, put_at,
  close_channel, close_next, advance, is_member, step, run,
}
use aether_agent.Process.Multiplex.Membership.{count_of, count_of-is_member}
use aether_agent.Process.Multiplex.Once.{run-IsOnce}
use aether_agent.Process.Multiplex.Open.{IsOpen-run}

get_elem-append :
    (xs : List ℕ) (y : ℕ) (ys : List ℕ) → get_elem? (xs ++ (y ∷ ys)) (length xs) ≡ some y
get_elem-append [] y ys = refl
get_elem-append (x ∷ xs) y ys = get_elem-append xs y ys

is_member-append :
    (c d : ℕ) (xs : List ℕ)
    → (d == c) ≡ false
    → is_member c (xs ++ (d ∷ [])) ≡ true
    → is_member c xs ≡ true
unfolding is_member
is_member-append c d [] e h = cc (rw e at h)
is_member-append c d (x ∷ xs) e h = elim (Bool-cases (x == c)) [
  | inl f ↦ rw f refl
  | inr f ↦ rw f (is_member-append c d xs e (rw f at h))
]

no_member : (c : ℕ) → is_member c [] ≡ true → ⊥
unfolding is_member
no_member c h = cc

count_of-cons : (c d : ℕ) (xs : List ℕ) → count_of d xs ≤ count_of d (c ∷ xs)
count_of-cons c d xs = elim (Bool-cases (c == d)) [
  | inl e ↦ rw e (omega arith)
  | inr e ↦ rw e (omega arith)
]

module _ {A : Type 0} where
  -- The channels of the list are closed.
  abbrev IsClosedAll : List ℕ → MultiplexedChannel A → Type 0
  IsClosedAll cs s = (c : ℕ) → is_member c cs ≡ true → (s.consumers c).is_closed ≡ true

  abbrev go_ons : ℕ → List (Move A)
  go_ons n = replicate n go_on

  closes_none :
      (done : List ℕ) (n : ℕ) (s : MultiplexedChannel A)
      → s.fan_out ≡ closing (length done) n none
      → length done ≡ n
      → run (go_ons 1) s ≡ record s { fan_out = finished }
  unfolding run step advance close_next
  closes_none done n s f e = rw (f, (==_iff (length done) n).1 e) refl

  close_one :
      (done : List ℕ) (c : ℕ) (rest : List ℕ) (s : MultiplexedChannel A)
      → s.channels ≡ done ++ (c ∷ rest)
      → s.fan_out ≡ closing (length done) (length done + suc (length rest)) none
      → (s.consumers c).is_closed ≡ false
      → step go_on s ≡ record s {
        consumers = put_at s.consumers c (record (s.consumers c) { is_closed = true });
        fan_out = closing (suc (length done)) (length done + suc (length rest)) none;
      }
  unfolding step advance close_next close_channel
  close_one done c rest s cs f o =
      let more : (length done == length done + suc (length rest)) ≡ false = ground arith in
      let at : get_elem? (s.channels ++ s.behind) (length done) ≡ some c =
        rw (cs, append_assoc done (c ∷ rest) s.behind)
          (get_elem-append done c (rest ++ s.behind)) in
      rw (f, more, at, o) refl

  run-step :
      (n : ℕ) (s t : MultiplexedChannel A)
      → step go_on s ≡ t
      → run (go_ons (suc n)) s ≡ run (go_ons n) t
  unfolding run
  run-step n s t q = ap (run (go_ons n)) q

  closes_rest :
      (rest done : List ℕ) (s : MultiplexedChannel A)
      → s.channels ≡ done ++ rest
      → s.fan_out ≡ closing (length done) (length done + length rest) none
      → ((c : ℕ) → count_of c rest ≤ 1)
      → ((c : ℕ) → is_member c rest ≡ true → (s.consumers c).is_closed ≡ false)
      → IsClosedAll done s
      → ((run (go_ons (suc (length rest))) s).fan_out ≡ finished)
        × IsClosedAll (done ++ rest) (run (go_ons (suc (length rest))) s)
  closes_rest [] done s cs f once still shut =
      rw (append_nil done, closes_none done (length done + 0) s f (omega arith)) (refl, shut)
  closes_rest (c ∷ rest) done s cs f once still shut =
      let q =
        close_one done c rest s cs f
          (still c (unfold is_member in rw ((==_iff c c).1 refl) refl)) in
      let l = length-append done (c ∷ []) in
      let n : length (done ++ (c ∷ [])) + length rest ≡ length done + suc (length rest) =
        omega (arith, l) in
      let m : length (done ++ (c ∷ [])) ≡ suc (length done) = omega (arith, l) in
      let next = record s {
        consumers = put_at s.consumers c (record (s.consumers c) { is_closed = true });
        fan_out = closing (suc (length done)) (length done + suc (length rest)) none;
      } in
      let ih =
        closes_rest rest (done ++ (c ∷ [])) next (cs ∙ sym (append_assoc done (c ∷ []) rest))
          (rw (n, m) refl) (λ d. omega (arith, once d, count_of-cons c d rest))
          (λ d i. elim (Bool-cases (c == d)) [
            | inl e ↦
                let k : count_of d (c ∷ rest) ≡ suc (count_of d rest) = rw e refl in
                absurd (omega (arith, k, once d, count_of-is_member d rest i))
            | inr e ↦ rw e (still d (unfold is_member in rw e i))
          ])
          (λ d i. elim (Bool-cases (c == d)) [
            | inl e ↦ rw e refl
            | inr e ↦ rw e (shut d (is_member-append d c done e i))
          ]) in
      rw (run-step (suc (length rest)) s next q, sym (append_assoc done (c ∷ []) rest)) ih

  abbrev pub AreClosed : List ℕ → MultiplexedChannel A → Type 0
  AreClosed cs s = All (λ c. (s.consumers c).is_closed ≡ true) cs

  are_closed : (cs : List ℕ) (s : MultiplexedChannel A) → IsClosedAll cs s → AreClosed cs s
  unfolding is_member
  are_closed [] s h = tt
  are_closed (c ∷ cs) s h = (
    h c (rw ((==_iff c c).1 refl) refl),
    are_closed cs s
        (λ d i. h d (elim (Bool-cases (c == d)) [ inl e ↦ rw e refl | inr e ↦ rw e i ])),
  )

  -- When the source has ended after any interleaving, and nobody forks or removes from then on,
  -- the goroutine closes the channel of every member and finishes, without a second close of any,
  -- in as many steps as there are members and two more.
  pub run-AreClosed :
      (ms : List (Move A))
      → (run ms new_multiplexed_channel).fan_out ≡ stored
      → ((run
            (replicate (length (run ms new_multiplexed_channel).channels + 2) go_on)
            (run ms new_multiplexed_channel)).fan_out
          ≡ finished)
        × AreClosed (run ms new_multiplexed_channel).channels (
            run
              (replicate (length (run ms new_multiplexed_channel).channels + 2) go_on)
              (run ms new_multiplexed_channel))
  run-AreClosed ms h =
      let s = run ms new_multiplexed_channel in
      let begun = record s { fan_out = closing 0 (length s.channels) none } in
      let start : step go_on s ≡ begun = unfold step advance in rw h refl in
      let n : length s.channels + 2 ≡ suc (suc (length s.channels)) = omega arith in
      let z : 0 + length s.channels ≡ length s.channels = omega arith in
      let all_open : (c : ℕ) → (s.consumers c).is_closed ≡ false =
        IsOpen-run ms new_multiplexed_channel (λ b c. unfold new_multiplexed_channel in refl)
          (rw h refl) in
      let end =
        closes_rest s.channels [] begun refl (rw z refl) (λ c. (run-IsOnce ms c).0)
          (λ c i. all_open c) (λ c i. absurd (no_member c i)) in
      let after = run (go_ons (suc (length s.channels))) begun in
      rw (n, run-step (suc (length s.channels)) s begun start)
        (end.0, are_closed s.channels after end.1)
