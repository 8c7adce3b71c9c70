-- ===== src/Identifiers/Keys.antt =====
-- packages/shared/pkg/keys/key.go: keys that are made, masked and verified. The hash, and what the
-- random source gives, are arguments.
pub mod Mask
pub mod Verify
mod Examples
use aether_agent.Prelude.{
  ℕ, ◌+◌, ◌-◌, ◌*◌, ◌/◌, ◌%◌, Bool, true, false, ◌&&◌, Option, none, some, List, [], ◌∷◌, ◌++◌, ltb,
  leb, ◌==◌, if◌then◌else◌, length, take, drop, Bytes, codes, has_prefix, Result, ok, err, ◌>>=◌,
}

abbrev pub identifier_value_suffix_length : ℕ
identifier_value_suffix_length = 4

abbrev pub identifier_value_prefix_length : ℕ
identifier_value_prefix_length = 2

abbrev pub key_length : ℕ
key_length = 20

pub record MaskedIdentifier : Type 0 where
  pub prefix : Bytes
  pub value_length : ℕ
  pub masked_value_prefix : Bytes
  pub masked_value_suffix : Bytes

pub record Key : Type 0 where
  pub prefixed_raw_value : Bytes
  pub hashed_value : Bytes
  pub masked : MaskedIdentifier

pub data KeyError : Type 0 where
  shorter_than_suffix equal_to_suffix no_randomness invalid_prefix invalid_key : KeyError

-- `suffixOffset` is negative for the first error.
unfoldable pub mask_key : Bytes → Bytes → Result KeyError MaskedIdentifier
mask_key prefix value =
    let suffix_offset = length value - identifier_value_suffix_length in
    let prefix_offset =
      if ltb suffix_offset identifier_value_prefix_length
      then suffix_offset
      else identifier_value_prefix_length in
    if ltb (length value) identifier_value_suffix_length
    then err shorter_than_suffix
    else if length value == identifier_value_suffix_length
    then err equal_to_suffix
    else ok (record {
      prefix = prefix;
      value_length = length value;
      masked_value_prefix = take prefix_offset value;
      masked_value_suffix = drop suffix_offset value;
    })

-- `hex.EncodeToString` and `hex.DecodeString`.
abbrev pub hex_digit : ℕ → ℕ
hex_digit n = if ltb n 10 then 48 + n else 87 + n

unfoldable pub encode_to_string : Bytes → Bytes
encode_to_string [] = []
encode_to_string (b ∷ bs) = hex_digit (b / 16) ∷ hex_digit (b % 16) ∷ encode_to_string bs

unfoldable pub from_hex_digit : ℕ → Option ℕ
from_hex_digit c =
    if leb 48 c && leb c 57
    then some (c - 48)
    else if leb 97 c && leb c 102
    then some (c - 87)
    else if leb 65 c && leb c 70
    then some (c - 55)
    else none

abbrev pub both : Option ℕ → Option ℕ → Option Bytes → Option Bytes
both (some h) (some l) (some bs) = some ((h * 16 + l) ∷ bs)
both _ _ _ = none

unfoldable pub decode_string : Bytes → Option Bytes
unfolding from_hex_digit
decode_string [] = some []
decode_string (c ∷ []) = none
decode_string (c ∷ d ∷ cs) = both (from_hex_digit c) (from_hex_digit d) (decode_string cs)

-- `random` is what `rand.Read` puts into the slice, or its error.
unfoldable pub generate_key : (Bytes → Bytes) → Option Bytes → Bytes → Result KeyError Key
unfolding mask_key encode_to_string
generate_key hash none prefix = err no_randomness
generate_key hash (some key_bytes) prefix = do
  mask ← mask_key prefix (encode_to_string key_bytes)
  ok (record {
    prefixed_raw_value = prefix ++ encode_to_string key_bytes;
    hashed_value = hash key_bytes;
    masked = mask;
  })

unfoldable pub trim_prefix : Bytes → Bytes → Bytes
trim_prefix s p = if has_prefix s p then drop (length p) s else s

unfoldable pub mask_token : Bytes → Bytes → Bytes
unfolding mask_key trim_prefix
mask_token prefix token = elim (mask_key prefix (trim_prefix token prefix)) [
  | err e ↦ codes "invalid_token_format"
  | ok m ↦ m.prefix ++ (m.masked_value_prefix ++ (codes "..." ++ m.masked_value_suffix))
]

abbrev pub hashed : (Bytes → Bytes) → Option Bytes → Result KeyError Bytes
hashed hash (some key_bytes) = ok (hash key_bytes)
hashed hash none = err invalid_key

unfoldable pub verify_key : (Bytes → Bytes) → Bytes → Bytes → Result KeyError Bytes
unfolding decode_string
verify_key hash prefix key =
    if has_prefix key prefix
    then hashed hash (decode_string (drop (length prefix) key))
    else err invalid_prefix
