-- ===== src/Header/Serialize.antt =====
-- packages/shared/pkg/storage/header/serialization.go: the header as bytes. A struct is written
-- field by field, little-endian, as encoding/binary does; a UUID is 16 bytes. `Deserialize`, which
-- reads the bytes from a storage blob first, is left out.
pub mod RoundTrip
pub mod Decode
pub mod Lengths
mod Examples
use aether_agent.Prelude.{
  ℕ, zero, suc, ◌+◌, Option, none, some, List, [], ◌∷◌, ◌++◌, length, Result, ok, err, ◌>>=◌,
  put_le, read_le,
}
use aether_agent.Header.Bitset.{Bitset}
use aether_agent.Header.Mapping.{BuildMap}
use aether_agent.Header.Lookup.{Metadata, Header, HeaderError, new_header, or_fail}

pub data DecodeError : Type 0 where
  bad_metadata bad_mapping : DecodeError
  in_header : HeaderError → DecodeError
  -- The fuel of the loop ran out.
  stuck : DecodeError

unfoldable pub put_metadata : Metadata → List ℕ
put_metadata m =
    put_le 8 m.version
    ++ put_le 8 m.block_size
    ++ put_le 8 m.size
    ++ put_le 8 m.generation
    ++ put_le 16 m.build_id
    ++ put_le 16 m.base_build_id

unfoldable pub put_mapping : BuildMap → List ℕ
put_mapping m =
    put_le 8 m.offset
    ++ put_le 8 m.length
    ++ put_le 16 m.build_id
    ++ put_le 8 m.build_storage_offset

unfoldable pub put_mappings : List BuildMap → List ℕ
put_mappings [] = []
put_mappings (m ∷ ms) = put_mapping m ++ put_mappings ms

unfoldable pub serialize : Metadata → List BuildMap → List ℕ
serialize metadata mappings = put_metadata metadata ++ put_mappings mappings

-- One field; too few bytes are an error of the struct that is read.
unfoldable pub field : DecodeError → ℕ → List ℕ → Result DecodeError (ℕ × List ℕ)
field e w data_ = elim (read_le w data_) [ none ↦ err e | some r ↦ ok r ]

unfoldable pub read_metadata : List ℕ → Result DecodeError (Metadata × List ℕ)
read_metadata data_ = do
  (version, data_) ← field bad_metadata 8 data_
  (block_size, data_) ← field bad_metadata 8 data_
  (size, data_) ← field bad_metadata 8 data_
  (generation, data_) ← field bad_metadata 8 data_
  (build_id, data_) ← field bad_metadata 16 data_
  (base_build_id, data_) ← field bad_metadata 16 data_
  ok (
    record {
      version = version;
      block_size = block_size;
      size = size;
      generation = generation;
      build_id = build_id;
      base_build_id = base_build_id;
    },
    data_,
  )

unfoldable pub read_mapping : List ℕ → Result DecodeError (BuildMap × List ℕ)
read_mapping data_ = do
  (offset, data_) ← field bad_mapping 8 data_
  (length, data_) ← field bad_mapping 8 data_
  (build_id, data_) ← field bad_mapping 16 data_
  (build_storage_offset, data_) ← field bad_mapping 8 data_
  ok (
    record {
      offset = offset;
      length = length;
      build_id = build_id;
      build_storage_offset = build_storage_offset;
    },
    data_,
  )

-- The loop: io.EOF ends it, and a rest that is too short is another error.
unfoldable pub read_mappings : ℕ → List ℕ → Result DecodeError (List BuildMap)
read_mappings fuel [] = ok []
read_mappings zero (b ∷ bs) = err stuck
read_mappings (suc fuel) (b ∷ bs) = do
  (m, rest) ← read_mapping (b ∷ bs)
  ms ← read_mappings fuel rest
  ok (m ∷ ms)

-- The fields that `DeserializeBytes` hands to `NewHeader`.
unfoldable pub decode : List ℕ → Result DecodeError (Metadata × List BuildMap)
decode data_ = do
  (metadata, rest) ← read_metadata data_
  mappings ← read_mappings (length rest) rest
  ok (metadata, mappings)

abbrev pub of_header {ℓ} : {A : Type ℓ} → Result HeaderError A → Result DecodeError A
of_header (ok a) = ok a
of_header (err e) = err (in_header e)

unfoldable pub deserialize_bytes : (B : Bitset) → List ℕ → Result DecodeError (Header B)
deserialize_bytes B data_ = do
  (metadata, mappings) ← decode data_
  of_header (new_header B metadata mappings)
