-- ===== src/Header/Serialize/RoundTrip.antt =====
-- `Serialize` against `DeserializeBytes`.
use aether_agent.Prelude.{
  ℕ, zero, suc, ◌+◌, ◌^◌, ◌≤◌, ◌<◌, ◌≡◌, refl, List, [], ◌∷◌, ◌++◌, arith, All, length,
  length-append, append_assoc, ok, ◌>>=◌, put_le, read_le, length-put_le, read_le-put_le,
}
use aether_agent.Header.Bitset.{Bitset}
use aether_agent.Header.Mapping.{BuildMap}
use aether_agent.Header.Lookup.{Metadata, new_header}
use aether_agent.Header.Serialize.{
  put_metadata, put_mapping, put_mappings, serialize, read_metadata, read_mapping, read_mappings,
  decode, deserialize_bytes, bad_metadata, bad_mapping, DecodeError, of_header, field,
}

-- The fields fit their Go types.
pub record IsMetadata (m : Metadata) : Type 0 where
  pub version : m.version < 2 ^ 64
  pub block_size : m.block_size < 2 ^ 64
  pub size : m.size < 2 ^ 64
  pub generation : m.generation < 2 ^ 64
  pub build_id : m.build_id < 2 ^ 128
  pub base_build_id : m.base_build_id < 2 ^ 128

pub record IsMapping (m : BuildMap) : Type 0 where
  pub offset : m.offset < 2 ^ 64
  pub length : m.length < 2 ^ 64
  pub build_id : m.build_id < 2 ^ 128
  pub build_storage_offset : m.build_storage_offset < 2 ^ 64

field-put_le :
    (e : DecodeError) (w n : ℕ) (rest : List ℕ)
    → n < 256 ^ w
    → field e w (put_le w n ++ rest) ≡ ok (n, rest)
unfolding field
field-put_le e w n rest h = rw (read_le-put_le w n rest h, field)

pub put_mapping-append :
    (m : BuildMap) (rest : List ℕ)
    → put_mapping m ++ rest
      ≡ put_le 8 m.offset
        ++ (put_le 8 m.length
            ++ (put_le 16 m.build_id ++ (put_le 8 m.build_storage_offset ++ rest)))
unfolding put_mapping
put_mapping-append m rest = simp append_assoc

pub put_metadata-append :
    (m : Metadata) (rest : List ℕ)
    → put_metadata m ++ rest
      ≡ put_le 8 m.version
        ++ (put_le 8 m.block_size
            ++ (put_le 8 m.size
                ++ (put_le 8 m.generation
                    ++ (put_le 16 m.build_id ++ (put_le 16 m.base_build_id ++ rest)))))
unfolding put_metadata
put_metadata-append m rest = simp append_assoc

read_mapping-put_mapping :
    (m : BuildMap) (rest : List ℕ)
    → IsMapping m
    → read_mapping (put_mapping m ++ rest) ≡ ok (m, rest)
unfolding read_mapping
read_mapping-put_mapping m rest w = rw (
  put_mapping-append m rest,
  field-put_le bad_mapping 8 m.offset _ w.offset,
  field-put_le bad_mapping 8 m.length _ w.length,
  field-put_le bad_mapping 16 m.build_id _ w.build_id,
  field-put_le bad_mapping 8 m.build_storage_offset _ w.build_storage_offset,
)

read_metadata-put_metadata :
    (m : Metadata) (rest : List ℕ)
    → IsMetadata m
    → read_metadata (put_metadata m ++ rest) ≡ ok (m, rest)
unfolding read_metadata
read_metadata-put_metadata m rest w = rw (
  put_metadata-append m rest,
  field-put_le bad_metadata 8 m.version _ w.version,
  field-put_le bad_metadata 8 m.block_size _ w.block_size,
  field-put_le bad_metadata 8 m.size _ w.size,
  field-put_le bad_metadata 8 m.generation _ w.generation,
  field-put_le bad_metadata 16 m.build_id _ w.build_id,
  field-put_le bad_metadata 16 m.base_build_id _ w.base_build_id,
)

length-put_mapping :
    (m : BuildMap) (rest : List ℕ) → length (put_mapping m ++ rest) ≡ 40 + length rest
length-put_mapping m rest = rw (put_mapping-append m rest) (
    omega (
      arith,
      length-append (put_le 8 m.offset) (
          put_le 8 m.length ++ (put_le 16 m.build_id ++ (put_le 8 m.build_storage_offset ++ rest))),
      length-append (put_le 8 m.length)
          (put_le 16 m.build_id ++ (put_le 8 m.build_storage_offset ++ rest)),
      length-append (put_le 16 m.build_id) (put_le 8 m.build_storage_offset ++ rest),
      length-append (put_le 8 m.build_storage_offset) rest,
      length-put_le 8 m.offset,
      length-put_le 8 m.length,
      length-put_le 16 m.build_id,
      length-put_le 8 m.build_storage_offset,
    ))

-- One round of the loop.
pub read_mappings_step :
    (fuel : ℕ) (ds rest : List ℕ) (m : BuildMap)
    → read_mapping ds ≡ ok (m, rest)
    → read_mappings (suc fuel) ds ≡ (read_mappings fuel rest >>= λ ms. ok (m ∷ ms))
unfolding read_mappings read_mapping field read_le
read_mappings_step fuel [] rest m e = cc
read_mappings_step fuel (d ∷ ds) rest m e = rw e

read_mappings-put_mappings :
    (fuel : ℕ) (ms : List BuildMap)
    → length (put_mappings ms) ≤ fuel
    → All IsMapping ms
    → read_mappings fuel (put_mappings ms) ≡ ok ms
unfolding put_mappings
read_mappings-put_mappings fuel [] h w = unfold read_mappings in refl
read_mappings-put_mappings zero (m ∷ ms) h w =
    absurd (omega (arith, length-put_mapping m (put_mappings ms)))
read_mappings-put_mappings (suc fuel) (m ∷ ms) h w = rw (
  read_mappings_step fuel (put_mapping m ++ put_mappings ms) (put_mappings ms) m
      (read_mapping-put_mapping m (put_mappings ms) w.0),
  read_mappings-put_mappings fuel ms (omega (arith, length-put_mapping m (put_mappings ms))) w.1,
)

decode-serialize :
    (metadata : Metadata) (ms : List BuildMap)
    → IsMetadata metadata
    → All IsMapping ms
    → decode (serialize metadata ms) ≡ ok (metadata, ms)
unfolding decode serialize
decode-serialize metadata ms w f = rw (
  read_metadata-put_metadata metadata (put_mappings ms) w,
  read_mappings-put_mappings (length (put_mappings ms)) ms (omega arith) f,
)

-- `DeserializeBytes` of what `Serialize` wrote is `NewHeader` of the metadata and the mappings
-- that were written, if every field fits its Go type.
pub deserialize_bytes-serialize :
    (B : Bitset) (metadata : Metadata) (ms : List BuildMap)
    → IsMetadata metadata
    → All IsMapping ms
    → deserialize_bytes B (serialize metadata ms) ≡ of_header (new_header B metadata ms)
unfolding deserialize_bytes
deserialize_bytes-serialize B metadata ms w f = rw (decode-serialize metadata ms w f)
