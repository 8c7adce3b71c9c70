-- ===== src/Prelude/Encoding.antt =====
-- Numbers of a fixed width as little-endian bytes: what encoding/binary does with an unsigned
-- integer, and with a byte array, which is the number of its little-endian bytes.
use native.Mathlib.Nat.{pow-succ'}
use mathlib.Core.Path.{◌≡◌, refl, ap}
use mathlib.Core.Option.{Option, some, none}
use mathlib.Core.List.{List, [], ◌∷◌, ◌++◌}
use native.Mathlib.Omega.{arith}
use Prim.Native.Nat.{ℕ, zero, suc, ◌+◌, ◌*◌, ◌/◌, ◌%◌, ◌^◌, ◌<◌, ◌≤◌}
use aether_agent.Prelude.Lists.{length, All}
use aether_agent.Prelude.Tests.{Option-cases}
use mathlib.Core.Logic.{inl, inr}

unfoldable pub put_le : ℕ → ℕ → List ℕ
put_le zero n = []
put_le (suc w) n = n % 256 ∷ put_le w (n / 256)

-- The next `w` bytes as a number, and the bytes behind them; `none` when there are fewer.
unfoldable pub read_le : ℕ → List ℕ → Option (ℕ × List ℕ)
read_le zero bs = some (0, bs)
read_le (suc w) [] = none
read_le (suc w) (b ∷ bs) = elim (read_le w bs) [
  | none ↦ none
  | some (n, rest) ↦ some (b + 256 * n, rest)
]

abbrev pub IsByte : ℕ → Type 0
IsByte b = b < 256

pub length-put_le : (w n : ℕ) → length (put_le w n) ≡ w
unfolding put_le
length-put_le zero n = refl
length-put_le (suc w) n = ap suc (length-put_le w (n / 256))

pub read_le-put_le :
    (w n : ℕ) (rest : List ℕ) → n < 256 ^ w → read_le w (put_le w n ++ rest) ≡ some (n, rest)
unfolding put_le read_le
read_le-put_le zero n rest h = ap (λ (m : ℕ). some (m, rest)) (omega arith)
read_le-put_le (suc w) n rest h =
    rw (read_le-put_le w (n / 256) rest (omega (arith, pow-succ' 256 w)))
      (ap (λ (m : ℕ). some (m, rest)) (omega arith))

-- What is read and written again is what stood there.
pub put_le-read_le :
    (w n : ℕ) (bs rest : List ℕ)
    → All IsByte bs
    → read_le w bs ≡ some (n, rest)
    → (put_le w n ++ rest ≡ bs) × (n < 256 ^ w) × All IsByte rest
unfolding put_le read_le
put_le-read_le zero n bs rest a e = ground arith
put_le-read_le (suc w) n [] rest a e = cc
put_le-read_le (suc w) n (b ∷ bs) rest a e = elim (Option-cases (read_le w bs)) [
  | inl p ↦ cc (rw p at e)
  | inr ((m, tail), p) ↦
      let q : ◌≡◌ {A = Option (ℕ × List ℕ)} (some (b + 256 * m, tail)) (some (n, rest)) =
        rw p at e in
      let v : b + 256 * m ≡ n = cc in
      let t : tail ≡ rest = cc in
      let (f, g, h) = put_le-read_le w m bs rest a.1 (rw t at p) in
      let lo : n % 256 ≡ b = omega (arith, a.0) in
      let hi : n / 256 ≡ m = omega (arith, a.0) in
      (rw (lo, hi, f), omega (arith, pow-succ' 256 w, a.0, g), h)
]

-- Reading fails just when there are too few bytes.
pub read_le_short : (w : ℕ) (bs : List ℕ) → length bs < w → read_le w bs ≡ none
unfolding read_le
read_le_short zero bs h = absurd (omega arith)
read_le_short (suc w) [] h = refl
read_le_short (suc w) (b ∷ bs) h = rw (read_le_short w bs (omega arith))

-- With enough bytes it succeeds, and takes `w` of them.
pub read_le_enough :
    (w : ℕ) (bs : List ℕ)
    → w ≤ length bs
    → (n : ℕ) × (rest : List ℕ) × (read_le w bs ≡ some (n, rest)) × (length bs ≡ w + length rest)
unfolding read_le
read_le_enough zero bs h = (0, bs, refl, omega arith)
read_le_enough (suc w) [] h = absurd (omega arith)
read_le_enough (suc w) (b ∷ bs) h =
    let (n, rest, e, l) = read_le_enough w bs (omega arith) in
    (b + 256 * n, rest, rw e, omega (arith, l))
