-- ===== src/Identifiers/Keys/Examples.antt =====
-- Keys on small inputs.
use aether_agent.Prelude.{
  ℕ, zero, suc, has_prefix, ◌+◌, ◌≤◌, ◌<◌, ◌⊎◌, [], ◌∷◌, ◌≡◌, refl, some, All, length, replicate,
  Bytes, codes, ok, err, arith,
}
use aether_agent.Identifiers.Keys.{
  Key, MaskedIdentifier, shorter_than_suffix, equal_to_suffix, mask_key, mask_token, generate_key,
  verify_key, trim_prefix,
}
use aether_agent.Identifiers.Keys.Mask.{Shows, mask_key_lem}
use aether_agent.Identifiers.Keys.Verify.{generate_key-verify_key}

abbrev six : Bytes
six = codes "abcdef"

mask_key_lem_example :
    ((length six < 4) × (mask_key [] six ≡ err shorter_than_suffix))
    ⊎ (((length six ≡ 4) × (mask_key [] six ≡ err equal_to_suffix))
        ⊎ ((5 ≤ length six)
            × ((m : MaskedIdentifier) × (mask_key [] six ≡ ok m)
                × (m.prefix ≡ [])
                × (m.value_length ≡ length six)
                × Shows six m)))
mask_key_lem_example = mask_key_lem [] six

-- The two ends of a value of six bytes are all of it.
mask_token_shows_all : mask_token (codes "sk_") (codes "sk_abcdef") ≡ codes "sk_ab...cdef"
unfolding mask_token mask_key trim_prefix has_prefix
mask_token_shows_all = refl

-- The last byte, as a hash.
abbrev hash : Bytes → Bytes
hash [] = []
hash (b ∷ bs) = b ∷ []

abbrev random : Bytes
random = replicate 20 0xa7

All-replicate : (n b : ℕ) → b < 256 → All (λ c. c < 256) (replicate n b)
All-replicate zero b h = tt
All-replicate (suc n) b h = (h, All-replicate n b h)

random_bytes : All (λ b. b < 256) random
random_bytes = All-replicate 20 0xa7 (omega arith)

generate_key-verify_key_example :
    (k : Key) × (generate_key hash (some random) (codes "sk_") ≡ ok k)
    × (verify_key hash (codes "sk_") k.prefixed_raw_value ≡ ok k.hashed_value)
    × (length k.prefixed_raw_value ≡ length (codes "sk_") + 40)
generate_key-verify_key_example =
    generate_key-verify_key hash (codes "sk_") random refl random_bytes
