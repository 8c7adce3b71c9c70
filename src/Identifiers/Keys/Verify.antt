-- ===== src/Identifiers/Keys/Verify.antt =====
-- A key that was made is verified.
use aether_agent.Prelude.{
  ℕ, ◌+◌, ◌*◌, ◌/◌, ◌%◌, ◌<◌, some, [], ◌∷◌, ◌++◌, ◌≡◌, refl, arith, inl, inr, All, length, Bytes,
  has_prefix-append, drop-append, length-append, ok,
}
use aether_agent.Identifiers.Keys.{
  Key, hex_digit, encode_to_string, from_hex_digit, decode_string, generate_key, verify_key,
}
use aether_agent.Identifiers.Keys.Mask.{mask_key_lem}

from_hex_digit-hex_digit : (n : ℕ) → n < 16 → from_hex_digit (hex_digit n) ≡ some n
unfolding from_hex_digit
from_hex_digit-hex_digit n h = ground arith

decode_string-encode_to_string :
    (bs : Bytes) → All (λ b. b < 256) bs → decode_string (encode_to_string bs) ≡ some bs
unfolding decode_string encode_to_string
decode_string-encode_to_string [] h = refl
decode_string-encode_to_string (b ∷ bs) h =
    let high : from_hex_digit (hex_digit (b / 16)) ≡ some (b / 16) =
      from_hex_digit-hex_digit (b / 16) (omega (arith, h.0)) in
    let low : from_hex_digit (hex_digit (b % 16)) ≡ some (b % 16) =
      from_hex_digit-hex_digit (b % 16) (omega arith) in
    let e : b / 16 * 16 + b % 16 ≡ b = omega arith in
    rw (high, low, decode_string-encode_to_string bs h.1, e) refl

length-encode_to_string : (bs : Bytes) → length (encode_to_string bs) ≡ 2 * length bs
unfolding encode_to_string
length-encode_to_string [] = refl
length-encode_to_string (b ∷ bs) = omega (arith, length-encode_to_string bs)

verify-made :
    (hash : Bytes → Bytes) (prefix bs : Bytes)
    → All (λ b. b < 256) bs
    → verify_key hash prefix (prefix ++ encode_to_string bs) ≡ ok (hash bs)
unfolding verify_key
verify-made hash prefix bs h =
    rw
      (
        has_prefix-append prefix (encode_to_string bs),
        drop-append prefix (encode_to_string bs),
        decode_string-encode_to_string bs h,
      )
      refl

-- For every prefix and twenty random bytes, `GenerateKey` makes a key, of the prefix and forty
-- bytes more, and `VerifyKey` with that prefix accepts it and returns the hash that was stored.
pub generate_key-verify_key :
    (hash : Bytes → Bytes) (prefix bs : Bytes)
    → length bs ≡ 20
    → All (λ b. b < 256) bs
    → (k : Key) × (generate_key hash (some bs) prefix ≡ ok k)
      × (verify_key hash prefix k.prefixed_raw_value ≡ ok k.hashed_value)
      × (length k.prefixed_raw_value ≡ length prefix + 40)
unfolding generate_key
generate_key-verify_key hash prefix bs l h =
    let n : length (encode_to_string bs) ≡ 40 = omega (arith, length-encode_to_string bs, l) in
    elim (mask_key_lem prefix (encode_to_string bs)) [
      | inl k ↦ absurd (omega (arith, k.0, n))
      | inr k ↦ elim k [
        | inl j ↦ absurd (omega (arith, j.0, n))
        | inr j ↦
            let (five, (m, e, p, v, s)) = j in
            (
              record {
                prefixed_raw_value = prefix ++ encode_to_string bs;
                hashed_value = hash bs;
                masked = m;
              },
              rw e refl,
              verify-made hash prefix bs h,
              omega (arith, n, length-append prefix (encode_to_string bs)),
            )
      ]
    ]
