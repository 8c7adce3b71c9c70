-- ===== src/Header/Bitset.antt =====
-- What the header uses of github.com/bits-and-blooms/bitset: its operations, with the documented
-- behaviour of each. `previous_set` is only asked below the length.
use Prim.Native.Nat.{max}
use aether_agent.Prelude.{
  ℕ, ◌+◌, ◌≤◌, ◌<◌, ◌≡◌, Bool, true, false, Option, none, some, ◌==◌, if◌then◌else◌,
}

-- `o` is the least set bit from `i` on.
pub data IsNext (test : ℕ → Bool) (i : ℕ) : Option ℕ → Type 0 where
  at :
      (k : ℕ)
      → i ≤ k
      → test k ≡ true
      → ((j : ℕ) → i ≤ j → j < k → test j ≡ false)
      → IsNext test i (some k)
  clear : ((j : ℕ) → i ≤ j → test j ≡ false) → IsNext test i none

-- `o` is the greatest set bit up to `i`.
pub data IsPrevious (test : ℕ → Bool) (i : ℕ) : Option ℕ → Type 0 where
  at :
      (k : ℕ)
      → k ≤ i
      → test k ≡ true
      → ((j : ℕ) → k < j → j ≤ i → test j ≡ false)
      → IsPrevious test i (some k)
  clear : ((j : ℕ) → j ≤ i → test j ≡ false) → IsPrevious test i none

pub record Bitset : Type 1 where
  pub Bits : Type 0
  pub new : ℕ → Bits
  pub set : Bits → ℕ → Bits
  pub test : Bits → ℕ → Bool
  pub len : Bits → ℕ
  pub next_set : Bits → ℕ → Option ℕ
  pub previous_set : Bits → ℕ → Option ℕ
  pub len-new : (n : ℕ) → len (new n) ≡ n
  pub test-new : (n i : ℕ) → test (new n) i ≡ false
  pub len-set : (b : Bits) (i : ℕ) → len (set b i) ≡ max (len b) (i + 1)
  pub test-set : (b : Bits) (i j : ℕ) → test (set b i) j ≡ (if i == j then true else test b j)
  pub test_len : (b : Bits) (i : ℕ) → test b i ≡ true → i < len b
  pub next_set-IsNext : (b : Bits) (i : ℕ) → IsNext (test b) i (next_set b i)
  pub previous_set-IsPrevious :
      (b : Bits) (i : ℕ) → i < len b → IsPrevious (test b) i (previous_set b i)
