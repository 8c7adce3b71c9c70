-- ===== src/Storage/Upload/Rounding.antt =====
-- The number of parts in float64, for sizes below 2 ^ 53.
use mathlib.Core.Path.{◌≡◌, refl, ap, sym, ◌∙◌}
use native.Mathlib.Nat.{div-eq_of_lt-le, div-add-mod', mod-lt, pow-suc, mul-le-mul_right}
use aether_agent.Prelude.{
  ℕ, zero, suc, ◌+◌, ◌-◌, ◌*◌, ◌/◌, ◌%◌, ◌^◌, ◌≤◌, ◌<◌, true, ◌⊎◌, inl, inr, ltb, lt→ltb, ltb→lt,
  arith, Bool-cases,
}
use aether_agent.Storage.Upload.{round_half_even, to_float64, float64_scale, ceil_quotient}

-- Either neighbour, and the upper one past the half.
round_cases :
    (a b : ℕ)
    → ((round_half_even a b ≡ a / b) × (2 * (a % b) ≤ b))
      ⊎ ((round_half_even a b ≡ suc (a / b)) × (b ≤ 2 * (a % b)))
unfolding round_half_even
round_cases a b = ground arith

mod_one : (n : ℕ) → n % 1 < 1
mod_one n = mod-lt n (omega arith)

round_half_even-unit : (n : ℕ) → round_half_even n 1 ≡ n
unfolding round_half_even
round_half_even-unit n = let d = div-add-mod' n 1 in let m = mod_one n in ground (arith, d, m)

pub to_float64_exact : (fuel n : ℕ) → n < 2 ^ 53 → to_float64 fuel 1 n ≡ n
unfolding to_float64
to_float64_exact zero n h = refl
to_float64_exact (suc fuel) n h =
    let e : ltb n (2 ^ 53 * 1) ≡ true = lt→ltb n (2 ^ 53 * 1) (omega (arith, h)) in
    rw (e, round_half_even-unit n) (omega arith)

-- The scale is positive, and cannot be doubled, unless the fuel ran out.
scale_large :
    (fuel a b : ℕ)
    → (0 < float64_scale fuel a b)
      × ((2 ^ 53 * b ≤ 2 * (a * float64_scale fuel a b)) ⊎ (2 ^ fuel ≤ float64_scale fuel a b))
unfolding float64_scale
scale_large zero a b = (omega arith, inr (omega arith))
scale_large (suc fuel) a b =
    let (p, c) = scale_large fuel (2 * a) b in
    let w : 2 ^ suc fuel ≡ 2 * 2 ^ fuel = omega (arith, pow-suc 2 fuel) in
    elim (Bool-cases (ltb (2 * a) (2 ^ 53 * b))) [
      | inl e ↦ rw e (
        omega (arith, p),
        elim c [ inl g ↦ inl (omega (arith, g)) | inr g ↦ inr (omega (arith, g, w)) ],
      )
      | inr e ↦
          let g : 2 ^ 53 * b ≤ 2 * a = ground (arith, e) in
          rw e (omega arith, inl (omega (arith, g)))
    ]

split : (x y : ℕ) → (x < y) ⊎ (y ≤ x)
split x y = elim (Bool-cases (ltb x y)) [
  | inl e ↦ inl (ltb→lt x y e)
  | inr e ↦ inr (ground (arith, e))
]

-- The exact quotient, rounded up.
above :
    (a b : ℕ)
    → 0 < b
    → ((a % b ≡ 0) × ((a + (b - 1)) / b ≡ a / b))
      ⊎ ((0 < a % b) × ((a + (b - 1)) / b ≡ suc (a / b)))
above a b p =
    let d = div-add-mod' a b in
    let m = mod-lt a p in
    elim (split 0 (a % b)) [
      | inl l ↦ inr (l, div-eq_of_lt-le b (omega (arith, d, l)) (omega (arith, d, m, p)))
      | inr l ↦
          inl (omega (arith, l), div-eq_of_lt-le b (omega (arith, d, l)) (omega (arith, d, l, p)))
    ]

module _ (a b s : ℕ) (p : 0 < b) (k : 0 < s) (large : b < 2 * s) where
  scaled : a * s ≡ a / b * s * b + a % b * s
  scaled = ap (λ x. x * s) (sym (div-add-mod' a b)) ∙ omega arith

  split_off : a * s / b * b + a * s % b ≡ a / b * s * b + a % b * s
  split_off = div-add-mod' (a * s) b ∙ scaled

  quotient_ge : a / b * s ≤ a * s / b
  quotient_ge = elim (split (a * s / b) (a / b * s)) [
    | inr l ↦ l
    | inl l ↦
        let c : suc (a * s / b) * b ≤ a / b * s * b = mul-le-mul_right b l in
        absurd (omega (arith, c, split_off, mod-lt (a * s) p))
  ]

  quotient_lt : a * s / b < suc (a / b) * s
  quotient_lt = elim (split (a * s / b) (suc (a / b) * s)) [
    | inl l ↦ l
    | inr l ↦
        let c : suc (a / b) * s * b ≤ a * s / b * b = mul-le-mul_right b l in
        let d : suc (a % b) * s ≤ b * s = mul-le-mul_right s (mod-lt a p) in
        absurd (omega (arith, c, d, k, split_off))
  ]

  -- A quotient with a remainder is not rounded down to its whole part.
  rounded_above :
      0 < a % b
      → (a / b * s < round_half_even (a * s) b) × (round_half_even (a * s) b ≤ suc (a / b) * s)
  rounded_above r = elim (round_cases (a * s) b) [
    | inr (e, u) ↦ rw e (omega (arith, quotient_ge), omega (arith, quotient_lt))
    | inl (e, u) ↦ rw e (
      elim (split (a / b * s) (a * s / b)) [
        | inl l ↦ l
        | inr l ↦
            let c : a * s / b * b ≤ a / b * s * b = mul-le-mul_right b l in
            let d : 1 * s ≤ a % b * s = mul-le-mul_right s r in
            absurd (omega (arith, c, d, u, large, split_off))
      ],
      omega (arith, quotient_lt),
    )
  ]

  rounded_whole : a % b ≡ 0 → round_half_even (a * s) b ≡ a / b * s
  rounded_whole z =
      let f : a * s / b * b + a * s % b ≡ a / b * s * b = split_off ∙ rw z (omega arith) in
      let g : a / b * s * b ≤ a * s / b * b = mul-le-mul_right b quotient_ge in
      elim (round_cases (a * s) b) [
        | inr (e, u) ↦ absurd (omega (arith, f, g, u, p))
        | inl (e, u) ↦ e ∙ elim (split (a / b * s) (a * s / b)) [
          | inr l ↦ omega (arith, l, quotient_ge)
          | inl l ↦
              let c : suc (a / b * s) * b ≤ a * s / b * b = mul-le-mul_right b l in
              absurd (omega (arith, c, f, p))
        ]
      ]

  rounded_up : (round_half_even (a * s) b + (s - 1)) / s ≡ (a + (b - 1)) / b
  rounded_up = elim (above a b p) [
    | inl (z, e) ↦
        let m = rounded_whole z in rw (e, m) (div-eq_of_lt-le s (omega arith) (omega (arith, k)))
    | inr (z, e) ↦
        let (l, u) = rounded_above z in
        rw e (div-eq_of_lt-le s (omega (arith, l, k)) (omega (arith, u, k)))
  ]

scale_enough :
    (a b s : ℕ)
    → 0 < b
    → a < 2 ^ 53
    → b < 2 ^ 53
    → (2 ^ 53 * b ≤ 2 * (a * s)) ⊎ (2 ^ 128 ≤ s)
    → b < 2 * s
scale_enough a b s p l m (inr g) = omega (arith, g, m)
scale_enough a b s p l m (inl g) = elim (split b (2 * s)) [
  | inl h ↦ h
  | inr h ↦
      let c : 2 * s * a ≤ b * a = mul-le-mul_right a h in
      let d : suc a * b ≤ 2 ^ 53 * b = mul-le-mul_right b l in absurd (omega (arith, c, d, g, p))
]

-- Below 2 ^ 53 the quotient in float64, rounded up, is the exact one.
pub ceil_quotient_lem :
    (a b : ℕ) → 0 < b → a < 2 ^ 53 → b < 2 ^ 53 → ceil_quotient a b ≡ (a + (b - 1)) / b
unfolding ceil_quotient
ceil_quotient_lem a b p l m =
    let (k, c) = scale_large 128 a b in
    rounded_up a b (float64_scale 128 a b) p k (scale_enough a b (float64_scale 128 a b) p l m c)
