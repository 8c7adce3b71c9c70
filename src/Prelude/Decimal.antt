-- ===== src/Prelude/Decimal.antt =====
-- `strconv.Itoa` and `strconv.ParseInt` in base 10, on 64-bit patterns.
use Prim.Native.Nat.{ℕ, zero, suc, ◌+◌, ◌-◌, ◌*◌, ◌/◌, ◌%◌, ◌^◌, ◌≤◌, ◌<◌}
use mathlib.Core.Path.{◌≡◌, refl, ap, sym, ◌∙◌}
use mathlib.Core.Logic.{◌⊎◌, inl, inr}
use mathlib.Core.Bool.{false, ◌&&◌}
use mathlib.Core.Option.{Option, some, none}
use mathlib.Core.List.{[], ◌∷◌, ◌++◌}
use native.Mathlib.Omega.{arith}
use aether_agent.Prelude.Tests.{ltb, leb, ◌==◌, if◌then◌else◌, Bool-cases, lt→ltb}
use aether_agent.Prelude.Words.{u64_mod, i64_max}
use aether_agent.Prelude.Text.{Bytes}

-- Twenty digits are enough for 64 bits.
unfoldable pub digits : ℕ → ℕ → Bytes
digits zero n = []
digits (suc fuel) n =
    let rest = digits fuel (n / 10) in
    if ltb n 10 then (48 + n) ∷ [] else rest ++ ((48 + n % 10) ∷ [])

unfoldable pub itoa : ℕ → Bytes
unfolding digits
itoa n = if ltb n i64_max then digits 20 n else 45 ∷ digits 20 (u64_mod - n)

unfoldable pub parse_digits : ℕ → Bytes → Option ℕ
parse_digits acc [] = some acc
parse_digits acc (c ∷ cs) =
    let rest = parse_digits (acc * 10 + (c - 48)) cs in if leb 48 c && leb c 57 then rest else none

-- The value of the digits, if they are some and it does not pass the bound.
abbrev parse_below : ℕ → Bytes → Option ℕ
parse_below bound [] = none
parse_below bound (c ∷ cs) = elim (parse_digits 0 (c ∷ cs)) [
  | none ↦ none
  | some n ↦ if ltb n bound then some n else none
]

unfoldable pub parse_int : Bytes → Option ℕ
parse_int [] = none
parse_int (c ∷ cs) =
    if c == 43
    then parse_below i64_max cs
    else if c == 45
    then elim (parse_below (i64_max + 1) cs) [
      | none ↦ none
      | some n ↦ some ((u64_mod - n) % u64_mod)
    ]
    else parse_below i64_max (c ∷ cs)

parse_digits-append :
    (acc : ℕ) (xs : Bytes) (n d : ℕ)
    → parse_digits acc xs ≡ some n
    → d < 10
    → parse_digits acc (xs ++ ((48 + d) ∷ [])) ≡ some (n * 10 + d)
unfolding parse_digits
parse_digits-append acc [] n d h k = let e : acc ≡ n = cc in ground (arith, e)
parse_digits-append acc (c ∷ cs) n d h k = elim (Bool-cases (leb 48 c && leb c 57)) [
  | inl e ↦ rw e (parse_digits-append (acc * 10 + (c - 48)) cs n d (rw e at h) k)
  | inr e ↦ cc (rw e at h)
]

abbrev limit : ℕ → ℕ
limit zero = 1
limit (suc fuel) = 10 * limit fuel

parse_digits-digits :
    (fuel n : ℕ) → n < limit fuel → parse_digits 0 (digits fuel n) ≡ some n ⊎ (n ≡ 0)
unfolding digits parse_digits
parse_digits-digits zero n h = inr (omega arith)
parse_digits-digits (suc fuel) n h = elim (Bool-cases (ltb n 10)) [
  | inl e ↦ inl (rw e (ground arith))
  | inr e ↦
      let k : n / 10 < limit fuel = ground arith in
      elim (parse_digits-digits fuel (n / 10) k) [
        | inl q ↦
            let m : n % 10 < 10 = omega arith in
            let s : n / 10 * 10 + n % 10 ≡ n = omega arith in
            inl (
              rw e (parse_digits-append 0 (digits fuel (n / 10)) (n / 10) (n % 10) q m ∙ ap some s))
        | inr z ↦ absurd (ground arith)
      ]
]

pub first_digit : (fuel n : ℕ) → (c : ℕ) × (cs : Bytes) × (digits (suc fuel) n ≡ c ∷ cs) × (48 ≤ c)
unfolding digits
first_digit zero n = elim (Bool-cases (ltb n 10)) [
  | inl e ↦ (48 + n, [], rw e, omega arith)
  | inr e ↦ (48 + n % 10, [], rw e, omega arith)
]
first_digit (suc fuel) n = elim (Bool-cases (ltb n 10)) [
  | inl e ↦ (48 + n, [], rw e, omega arith)
  | inr e ↦
      let (c, cs, q, k) = first_digit fuel (n / 10) in (c, cs ++ ((48 + n % 10) ∷ []), rw (e, q), k)
]

pub parse_all_digits : (n : ℕ) → n < 10 ^ 20 → parse_digits 0 (digits 20 n) ≡ some n
parse_all_digits n h = elim (parse_digits-digits 20 n (omega (arith, h))) [
  | inl e ↦ e
  | inr z ↦ rw z (unfold parse_digits digits in refl)
]

parse_int-digits :
    (s : Bytes) (n : ℕ)
    → n < i64_max
    → parse_digits 0 s ≡ some n
    → (c : ℕ) (cs : Bytes) → s ≡ c ∷ cs
    → 48 ≤ c
    → parse_int s ≡ some n
unfolding parse_int
parse_int-digits s n h p c cs q k =
    let plus : (c == 43) ≡ false = ground arith in
    let minus : (c == 45) ≡ false = ground arith in
    let r : parse_digits 0 (c ∷ cs) ≡ some n = rw (sym q) p in rw (q, plus, minus) (below c cs r)
  where
    below :
        (c : ℕ) (cs : Bytes)
        → parse_digits 0 (c ∷ cs) ≡ some n
        → parse_below i64_max (c ∷ cs) ≡ some n
    below c cs r = rw (parse_below, r, lt→ltb n i64_max h)

pub parse_int-itoa : (n : ℕ) → n < i64_max → parse_int (itoa n) ≡ some n
unfolding itoa
parse_int-itoa n h =
    let (c, cs, q, k) = first_digit 19 n in
    rw (lt→ltb n i64_max h)
      (parse_int-digits (digits 20 n) n h (parse_all_digits n (omega (arith, h))) c cs q k)
