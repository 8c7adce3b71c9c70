-- ===== src/Header/Serialize/Examples.antt =====
-- Headers and bytes for the serialization.
use aether_agent.Prelude.{
  ◌%◌, ◌-◌, ◌⊎◌, ◌≢◌, length, ℕ, zero, suc, read_le, ◌≡◌, refl, arith, List, [], ◌∷◌, All,
  replicate, ok, err, IsByte,
}
use aether_agent.Header.BoolBits.{bool_bits}
use aether_agent.Header.Mapping.{BuildMap}
use aether_agent.Header.Lookup.{Metadata, new_header}
use aether_agent.Header.Serialize.{
  serialize, decode, read_metadata, field, read_mappings, read_mapping, deserialize_bytes,
  of_header, bad_mapping,
}
use aether_agent.Header.Serialize.RoundTrip.{deserialize_bytes-serialize}
use aether_agent.Header.Serialize.Decode.{serialize-decode}
use aether_agent.Header.Serialize.Lengths.{decode_lengths}

abbrev small_meta : Metadata
small_meta = record {
  version = 3;
  block_size = 2;
  size = 8;
  generation = 5;
  build_id = 8;
  base_build_id = 7;
}

abbrev whole : List BuildMap
whole = record { offset = 0; length = 8; build_id = 300; build_storage_offset = 0 } ∷ []

deserialize_bytes-serialize_example :
    deserialize_bytes bool_bits (serialize small_meta whole)
    ≡ of_header (new_header bool_bits small_meta whole)
deserialize_bytes-serialize_example =
    deserialize_bytes-serialize bool_bits small_meta whole
      (record {
        version = omega arith;
        block_size = omega arith;
        size = omega arith;
        generation = omega arith;
        build_id = omega arith;
        base_build_id = omega arith;
      })
      (
        record {
          offset = omega arith;
          length = omega arith;
          build_id = omega arith;
          build_storage_offset = omega arith;
        },
        tt,
      )

-- 104 bytes: the metadata, and one mapping.
abbrev zeros : List ℕ
zeros = replicate 104 0

zeros-IsByte : (n : ℕ) → All IsByte (replicate n 0)
zeros-IsByte zero = tt
zeros-IsByte (suc n) = (omega arith, zeros-IsByte n)

abbrev zero_meta : Metadata
zero_meta = record {
  version = 0;
  block_size = 0;
  size = 0;
  generation = 0;
  build_id = 0;
  base_build_id = 0;
}

abbrev zero_mapping : BuildMap
zero_mapping = record { offset = 0; length = 0; build_id = 0; build_storage_offset = 0 }

zeros_decoded : decode zeros ≡ ok (zero_meta, zero_mapping ∷ [])
unfolding decode read_metadata field read_le read_mappings read_mapping
zeros_decoded = refl

serialize-decode_example : serialize zero_meta (zero_mapping ∷ []) ≡ zeros
serialize-decode_example =
    serialize-decode zeros zero_meta (zero_mapping ∷ []) (zeros-IsByte 104) zeros_decoded

decode_lengths_example :
    (((length zeros - 64) % 40 ≡ 0)
      × ((metadata : Metadata) × (ms : List BuildMap) × (decode zeros ≡ ok (metadata, ms))))
    ⊎ (((length zeros - 64) % 40 ≢ 0) × (decode zeros ≡ err bad_mapping))
decode_lengths_example = decode_lengths zeros (omega arith)
