-- ===== src/Header/BoolBits.antt =====
-- The bitset as a list of bits: an implementation of the interface that evaluates.
use Prim.Native.Nat.{max}
use mathlib.Core.Option
use aether_agent.Prelude.{
  ℕ, zero, suc, ◌+◌, ◌≤◌, ◌<◌, ◌≡◌, refl, Bool, true, false, Option, none, some, List, [], ◌∷◌,
  arith, ◌==◌, if◌then◌else◌, length, replicate,
}
use aether_agent.Header.Bitset.{Bitset, IsNext, IsPrevious, at, clear}

abbrev pub Bits : Type 0
Bits = List Bool

abbrev pub test : Bits → ℕ → Bool
test [] i = false
test (b ∷ bs) zero = b
test (b ∷ bs) (suc i) = test bs i

abbrev pub set : Bits → ℕ → Bits
set [] zero = true ∷ []
set [] (suc i) = false ∷ set [] i
set (b ∷ bs) zero = true ∷ bs
set (b ∷ bs) (suc i) = b ∷ set bs i

abbrev pub next_set : Bits → ℕ → Option ℕ
next_set [] i = none
next_set (true ∷ bs) zero = some 0
next_set (false ∷ bs) zero = Option.map suc (next_set bs zero)
next_set (b ∷ bs) (suc i) = Option.map suc (next_set bs i)

abbrev pub first : Bool → Option ℕ
first b = if b then some 0 else none

abbrev pub previous_set : Bits → ℕ → Option ℕ
previous_set [] i = none
previous_set (b ∷ bs) zero = first b
previous_set (b ∷ bs) (suc i) = elim (previous_set bs i) [ none ↦ first b | some k ↦ some (suc k) ]

pub len-new : (n : ℕ) → length (replicate n false) ≡ n
len-new zero = refl
len-new (suc n) = ground (arith, len-new n)

pub test-new : (n i : ℕ) → test (replicate n false) i ≡ false
test-new zero i = refl
test-new (suc n) zero = refl
test-new (suc n) (suc i) = test-new n i

pub len-set : (b : Bits) (i : ℕ) → length (set b i) ≡ max (length b) (i + 1)
len-set [] zero = refl
len-set [] (suc i) = ground (arith, len-set [] i)
len-set (b ∷ bs) zero = omega arith
len-set (b ∷ bs) (suc i) = omega (arith, len-set bs i)

pub test-set : (b : Bits) (i j : ℕ) → test (set b i) j ≡ (if i == j then true else test b j)
test-set [] zero zero = refl
test-set [] zero (suc j) = ground arith
test-set [] (suc i) zero = ground arith
test-set [] (suc i) (suc j) = ground (arith, test-set [] i j)
test-set (b ∷ bs) zero zero = refl
test-set (b ∷ bs) zero (suc j) = ground arith
test-set (b ∷ bs) (suc i) zero = ground arith
test-set (b ∷ bs) (suc i) (suc j) = ground (arith, test-set bs i j)

pub test_len : (b : Bits) (i : ℕ) → test b i ≡ true → i < length b
test_len [] i t = ground arith
test_len (b ∷ bs) zero t = omega arith
test_len (b ∷ bs) (suc i) t = omega (arith, test_len bs i t)

by_suc : (P : ℕ → Type 0) → P 0 → ((j : ℕ) → P (suc j)) → (j : ℕ) → P j
by_suc P z s zero = z
by_suc P z s (suc j) = s j

IsNext-suc :
    (b : Bool) (bs : Bits) (i : ℕ) (o : Option ℕ)
    → IsNext (test bs) i o
    → IsNext (test (b ∷ bs)) (suc i) (Option.map suc o)
IsNext-suc b bs i (some k) (at _ h e f) =
    at (suc k) (omega arith) e
      (by_suc _ (λ l m. absurd (omega arith)) (λ j. λ l m. f j (omega arith) (omega arith)))
IsNext-suc b bs i none (clear f) =
    clear (by_suc _ (λ l. absurd (omega arith)) (λ j. λ l. f j (omega arith)))

IsNext-zero :
    (bs : Bits) (o : Option ℕ)
    → IsNext (test bs) 0 o
    → IsNext (test (false ∷ bs)) 0 (Option.map suc o)
IsNext-zero bs (some k) (at _ h e f) =
    at (suc k) (omega arith) e
      (by_suc _ (λ l m. refl) (λ j. λ l m. f j (omega arith) (omega arith)))
IsNext-zero bs none (clear f) = clear (by_suc _ (λ l. refl) (λ j. λ l. f j (omega arith)))

pub next_set-IsNext : (b : Bits) (i : ℕ) → IsNext (test b) i (next_set b i)
next_set-IsNext [] i = clear (λ j l. refl)
next_set-IsNext (true ∷ bs) zero = at 0 (omega arith) refl (λ j l m. absurd (omega arith))
next_set-IsNext (false ∷ bs) zero = IsNext-zero bs (next_set bs zero) (next_set-IsNext bs zero)
next_set-IsNext (true ∷ bs) (suc i) = IsNext-suc true bs i (next_set bs i) (next_set-IsNext bs i)
next_set-IsNext (false ∷ bs) (suc i) = IsNext-suc false bs i (next_set bs i) (next_set-IsNext bs i)

first-IsPrevious :
    (b : Bool) (bs : Bits) (i : ℕ)
    → ((j : ℕ) → suc j ≤ i → test bs j ≡ false)
    → IsPrevious (test (b ∷ bs)) i (first b)
first-IsPrevious true bs i f =
    at 0 (omega arith) refl (by_suc _ (λ l m. absurd (omega arith)) (λ j. λ l m. f j m))
first-IsPrevious false bs i f = clear (by_suc _ (λ l. refl) (λ j. λ l. f j l))

IsPrevious-suc :
    (b : Bool) (bs : Bits) (i : ℕ) (o : Option ℕ)
    → IsPrevious (test bs) i o
    → IsPrevious (test (b ∷ bs)) (suc i) (elim o [ none ↦ first b | some k ↦ some (suc k) ])
IsPrevious-suc b bs i (some k) (at _ h e f) =
    at (suc k) (omega arith) e
      (by_suc _ (λ l m. absurd (omega arith)) (λ j. λ l m. f j (omega arith) (omega arith)))
IsPrevious-suc b bs i none (clear f) = first-IsPrevious b bs (suc i) (λ j l. f j (omega arith))

pub previous_set-IsPrevious : (b : Bits) (i : ℕ) → IsPrevious (test b) i (previous_set b i)
previous_set-IsPrevious [] i = clear (λ j l. refl)
previous_set-IsPrevious (b ∷ bs) zero = first-IsPrevious b bs 0 (λ j l. absurd (omega arith))
previous_set-IsPrevious (b ∷ bs) (suc i) =
    IsPrevious-suc b bs i (previous_set bs i) (previous_set-IsPrevious bs i)

abbrev pub bool_bits : Bitset
bool_bits = record {
  Bits = Bits;
  new = λ n. replicate n false;
  set = set;
  test = test;
  len = length;
  next_set = next_set;
  previous_set = previous_set;
  len-new = len-new;
  test-new = test-new;
  len-set = len-set;
  test-set = test-set;
  test_len = test_len;
  next_set-IsNext = next_set-IsNext;
  previous_set-IsPrevious = λ b i l. previous_set-IsPrevious b i;
}
