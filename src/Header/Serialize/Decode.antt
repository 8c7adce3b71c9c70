-- ===== src/Header/Serialize/Decode.antt =====
-- What `DeserializeBytes` reads from any bytes, and which it refuses.
use aether_agent.Prelude.{
  ℕ, zero, suc, ◌≡◌, ap, ◌∙◌, subst, List, [], ◌∷◌, ◌++◌, All, length, Result, ok, bind_ok, put_le,
  read_le, put_le-read_le, IsByte, inl, inr, Option-cases,
}
use aether_agent.Header.Mapping.{BuildMap}
use aether_agent.Header.Lookup.{Metadata}
use aether_agent.Header.Serialize.{
  put_metadata, put_mapping, put_mappings, serialize, read_metadata, read_mapping, read_mappings,
  decode, bad_metadata, bad_mapping, DecodeError, field,
}
use aether_agent.Header.Serialize.RoundTrip.{put_mapping-append, put_metadata-append}

-- A field that is read, written again in front of what is left, is what stood there.
put_le-field :
    (e : DecodeError) (w : ℕ) (ds : List ℕ) (r : ℕ × List ℕ)
    → All IsByte ds
    → field e w ds ≡ ok r
    → (put_le w r.0 ++ r.1 ≡ ds) × All IsByte r.1
unfolding field
put_le-field e w ds r a f = elim (Option-cases (read_le w ds)) [
  | inl p ↦ cc (rw (p, field) at f)
  | inr (s, p) ↦
      let q : s ≡ r = cc (rw (p, field) at f) in
      let (g, h, i) = put_le-read_le w r.0 ds r.1 a (rw q at p) in (g, i)
]

abbrev Written : {A : Type 0} → (A → List ℕ) → List ℕ → A × List ℕ → Type 0
Written put ds r = (put r.0 ++ r.1 ≡ ds) × All IsByte r.1

ok-Written :
    {A : Type 0} (put : A → List ℕ) (ds : List ℕ) (r s : A × List ℕ)
    → Written put ds r
    → ◌≡◌ {A = Result DecodeError (A × List ℕ)} (ok r) (ok s)
    → Written put ds s
ok-Written put ds r s w e = let q : r ≡ s = cc in subst (Written put ds) q w

mapping_fields :
    (ds : List ℕ) (r1 r2 r3 r4 : ℕ × List ℕ)
    → All IsByte ds
    → field bad_mapping 8 ds ≡ ok r1
    → field bad_mapping 8 r1.1 ≡ ok r2
    → field bad_mapping 16 r2.1 ≡ ok r3
    → field bad_mapping 8 r3.1 ≡ ok r4
    → Written put_mapping ds (
      record { offset = r1.0; length = r2.0; build_id = r3.0; build_storage_offset = r4.0 },
      r4.1,
    )
mapping_fields ds r1 r2 r3 r4 a e1 e2 e3 e4 =
    let (p1, a1) = put_le-field bad_mapping 8 ds r1 a e1 in
    let (p2, a2) = put_le-field bad_mapping 8 r1.1 r2 a1 e2 in
    let (p3, a3) = put_le-field bad_mapping 16 r2.1 r3 a2 e3 in
    let (p4, a4) = put_le-field bad_mapping 8 r3.1 r4 a3 e4 in
    (put_mapping-append _ r4.1 ∙ rw (p4, p3, p2, p1), a4)

put_mapping-read_mapping :
    (ds : List ℕ) (s : BuildMap × List ℕ)
    → All IsByte ds
    → read_mapping ds ≡ ok s
    → Written put_mapping ds s
unfolding read_mapping
put_mapping-read_mapping ds s a e =
    let (r1, e1, k1) = bind_ok (field bad_mapping 8 ds) _ s e in
    let (r2, e2, k2) = bind_ok (field bad_mapping 8 r1.1) _ s k1 in
    let (r3, e3, k3) = bind_ok (field bad_mapping 16 r2.1) _ s k2 in
    let (r4, e4, k4) = bind_ok (field bad_mapping 8 r3.1) _ s k3 in
    ok-Written put_mapping ds _ s (mapping_fields ds r1 r2 r3 r4 a e1 e2 e3 e4) k4

metadata_fields :
    (ds : List ℕ) (r1 r2 r3 r4 r5 r6 : ℕ × List ℕ)
    → All IsByte ds
    → field bad_metadata 8 ds ≡ ok r1
    → field bad_metadata 8 r1.1 ≡ ok r2
    → field bad_metadata 8 r2.1 ≡ ok r3
    → field bad_metadata 8 r3.1 ≡ ok r4
    → field bad_metadata 16 r4.1 ≡ ok r5
    → field bad_metadata 16 r5.1 ≡ ok r6
    → Written put_metadata ds (
      record {
        version = r1.0;
        block_size = r2.0;
        size = r3.0;
        generation = r4.0;
        build_id = r5.0;
        base_build_id = r6.0;
      },
      r6.1,
    )
metadata_fields ds r1 r2 r3 r4 r5 r6 a e1 e2 e3 e4 e5 e6 =
    let (p1, a1) = put_le-field bad_metadata 8 ds r1 a e1 in
    let (p2, a2) = put_le-field bad_metadata 8 r1.1 r2 a1 e2 in
    let (p3, a3) = put_le-field bad_metadata 8 r2.1 r3 a2 e3 in
    let (p4, a4) = put_le-field bad_metadata 8 r3.1 r4 a3 e4 in
    let (p5, a5) = put_le-field bad_metadata 16 r4.1 r5 a4 e5 in
    let (p6, a6) = put_le-field bad_metadata 16 r5.1 r6 a5 e6 in
    (put_metadata-append _ r6.1 ∙ rw (p6, p5, p4, p3, p2, p1), a6)

put_metadata-read_metadata :
    (ds : List ℕ) (s : Metadata × List ℕ)
    → All IsByte ds
    → read_metadata ds ≡ ok s
    → Written put_metadata ds s
unfolding read_metadata
put_metadata-read_metadata ds s a e =
    let (r1, e1, k1) = bind_ok (field bad_metadata 8 ds) _ s e in
    let (r2, e2, k2) = bind_ok (field bad_metadata 8 r1.1) _ s k1 in
    let (r3, e3, k3) = bind_ok (field bad_metadata 8 r2.1) _ s k2 in
    let (r4, e4, k4) = bind_ok (field bad_metadata 8 r3.1) _ s k3 in
    let (r5, e5, k5) = bind_ok (field bad_metadata 16 r4.1) _ s k4 in
    let (r6, e6, k6) = bind_ok (field bad_metadata 16 r5.1) _ s k5 in
    ok-Written put_metadata ds _ s (metadata_fields ds r1 r2 r3 r4 r5 r6 a e1 e2 e3 e4 e5 e6) k6

put_mappings-read_mappings :
    (fuel : ℕ) (ds : List ℕ) (ms : List BuildMap)
    → All IsByte ds
    → read_mappings fuel ds ≡ ok ms
    → put_mappings ms ≡ ds
unfolding read_mappings put_mappings
put_mappings-read_mappings fuel [] ms a e = let q : ◌≡◌ {A = List BuildMap} [] ms = cc in rw (← q)
put_mappings-read_mappings zero (d ∷ ds) ms a e = cc
put_mappings-read_mappings (suc fuel) (d ∷ ds) ms a e =
    let (r, f, k) = bind_ok (read_mapping (d ∷ ds)) _ ms e in
    let (rest, g, l) = bind_ok (read_mappings fuel r.1) _ ms k in
    let (p, b) = put_mapping-read_mapping (d ∷ ds) r a f in
    mappings_of fuel (d ∷ ds) r rest ms (put_mappings-read_mappings fuel r.1 rest b g) p l
  where
    mappings_of :
        (fuel : ℕ) (ds : List ℕ) (r : BuildMap × List ℕ) (rest ms : List BuildMap)
        → put_mappings rest ≡ r.1
        → put_mapping r.0 ++ r.1 ≡ ds
        → ◌≡◌ {A = Result DecodeError (List BuildMap)} (ok (r.0 ∷ rest)) (ok ms)
        → put_mappings ms ≡ ds
    mappings_of fuel ds r rest ms h p l =
        let q : r.0 ∷ rest ≡ ms = cc in rw (← q) (ap (λ xs. put_mapping r.0 ++ xs) h ∙ p)

-- Bytes that `DeserializeBytes` reads are those that `Serialize` writes for the metadata and the
-- mappings read from them.
pub serialize-decode :
    (ds : List ℕ) (metadata : Metadata) (ms : List BuildMap)
    → All IsByte ds
    → decode ds ≡ ok (metadata, ms)
    → serialize metadata ms ≡ ds
unfolding decode serialize
serialize-decode ds metadata ms a e =
    let (r, f, k) = bind_ok (read_metadata ds) _ (metadata, ms) e in
    let (ns, g, l) = bind_ok (read_mappings (length r.1) r.1) _ (metadata, ms) k in
    let (p, b) = put_metadata-read_metadata ds r a f in
    serialize_of r ns (put_mappings-read_mappings _ r.1 ns b g) p l
  where
    serialize_of :
        (r : Metadata × List ℕ) (ns : List BuildMap)
        → put_mappings ns ≡ r.1
        → put_metadata r.0 ++ r.1 ≡ ds
        → ◌≡◌ {A = Result DecodeError (Metadata × List BuildMap)} (ok (r.0, ns)) (ok (metadata, ms))
        → put_metadata metadata ++ put_mappings ms ≡ ds
    serialize_of r ns h p l =
        let m : r.0 ≡ metadata = cc in
        let q : ns ≡ ms = cc in rw (← m, ← q) (ap (λ xs. put_metadata r.0 ++ xs) h ∙ p)
