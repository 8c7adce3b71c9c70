-- ===== src/Process/Multiplex/Membership.antt =====
-- How often a consumer's channel stands in the slice of a multiplexed channel.
use aether_agent.Prelude.{
  ℕ, suc, ◌+◌, ◌-◌, Bool, true, false, List, [], ◌∷◌, ◌++◌, ◌==◌, ==_iff, if◌then◌else◌, ◌≡◌, ◌≤◌,
  refl, arith, inl, inr, Bool-cases,
}
use aether_agent.Process.Multiplex.{MultiplexedChannel, remove_first, is_member, remove}

-- How often a channel stands in a slice.
abbrev pub count_of : ℕ → List ℕ → ℕ
count_of c [] = 0
count_of c (d ∷ ds) = if d == c then suc (count_of c ds) else count_of c ds

abbrev pub one_if : Bool → ℕ
one_if true = 1
one_if false = 0

pub count_of-append :
    (c d : ℕ) (xs : List ℕ) → count_of c (xs ++ (d ∷ [])) ≡ count_of c xs + one_if (d == c)
count_of-append c d [] = elim (Bool-cases (d == c)) [ inl e ↦ rw e refl | inr e ↦ rw e refl ]
count_of-append c d (x ∷ xs) = elim (Bool-cases (x == c)) [
  | inl e ↦ rw (e, count_of-append c d xs) (omega arith)
  | inr e ↦ rw e (count_of-append c d xs)
]

count_of-remove_first :
    (c d : ℕ) (xs : List ℕ)
    → is_member d xs ≡ true
    → count_of c (remove_first d xs) + one_if (d == c) ≡ count_of c xs
unfolding is_member remove_first
count_of-remove_first c d [] h = cc
count_of-remove_first c d (x ∷ xs) h = elim (Bool-cases (x == d)) [
  | inl e ↦
      let q : x ≡ d = (==_iff x d).0 e in
      rw (e, q)
        (elim (Bool-cases (d == c)) [ inl f ↦ rw f (omega arith) | inr f ↦ rw f (omega arith) ])
  | inr e ↦
      let k : is_member d xs ≡ true = rw e at h in
      let ih : count_of c (remove_first d xs) + one_if (d == c) ≡ count_of c xs =
        count_of-remove_first c d xs k in
      rw e (elim (Bool-cases (x == c)) [ inl f ↦ rw f (omega (arith, ih)) | inr f ↦ rw f ih ])
]

count_of_absent :
    (c d : ℕ) (xs : List ℕ) → is_member d xs ≡ false → (d == c) ≡ true → count_of c xs ≡ 0
unfolding is_member
count_of_absent c d [] h e = refl
count_of_absent c d (x ∷ xs) h e = elim (Bool-cases (x == d)) [
  | inl f ↦ cc (rw f at h)
  | inr f ↦
      let k : is_member d xs ≡ false = rw f at h in
      let g : (x == c) ≡ false = ground arith in rw g (count_of_absent c d xs k e)
]

pub count_of-remove :
    {A : Type 0} (c d : ℕ) (s : MultiplexedChannel A)
    → count_of c (remove d s).channels ≡ count_of c s.channels - one_if (d == c)
unfolding remove
count_of-remove c d s = elim (Bool-cases (is_member d s.channels)) [
  | inl e ↦
      let k : count_of c (remove_first d s.channels) + one_if (d == c) ≡ count_of c s.channels =
        count_of-remove_first c d s.channels e in
      rw e (omega (arith, k))
  | inr e ↦ rw e (elim (Bool-cases (d == c)) [
    | inl f ↦ rw (f, count_of_absent c d s.channels e f) refl
    | inr f ↦ rw f (omega arith)
  ])
]

pub count_of-is_member : (c : ℕ) (xs : List ℕ) → is_member c xs ≡ true → 1 ≤ count_of c xs
unfolding is_member
count_of-is_member c [] h = cc
count_of-is_member c (x ∷ xs) h = elim (Bool-cases (x == c)) [
  | inl e ↦ rw e (omega arith)
  | inr e ↦ let k : is_member c xs ≡ true = rw e at h in rw e (count_of-is_member c xs k)
]
