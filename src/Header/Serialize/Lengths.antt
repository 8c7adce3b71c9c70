-- ===== src/Header/Serialize/Lengths.antt =====
-- Which lengths `DeserializeBytes` accepts: 64 bytes, and then a multiple of 40.
use aether_agent.Prelude.{
  ◌==◌, ==_iff, ◌⊎◌, Bool-cases, ℕ, zero, suc, ◌+◌, ◌-◌, ◌%◌, ◌≤◌, ◌<◌, ◌≡◌, refl, ◌∙◌, ◌≢◌, List,
  [], ◌∷◌, arith, length, Result, ok, err, ◌>>=◌, read_le_short, read_le_enough, inl, inr, le_or_lt,
}
use aether_agent.Header.Mapping.{BuildMap}
use aether_agent.Header.Lookup.{Metadata}
use aether_agent.Header.Serialize.{
  read_metadata, read_mapping, read_mappings, decode, bad_metadata, bad_mapping, DecodeError, field,
}
use aether_agent.Header.Serialize.RoundTrip.{read_mappings_step}

-- `r` was read from `ds`, and took `w` bytes.
abbrev Took : {A : Type 0} → ℕ → List ℕ → Result DecodeError (A × List ℕ) → Type 0
Took {A = A} w ds t = (r : A × List ℕ) × (t ≡ ok r) × (length ds ≡ w + length r.1)

field_enough : (e : DecodeError) (w : ℕ) (ds : List ℕ) → w ≤ length ds → Took w ds (field e w ds)
unfolding field
field_enough e w ds h = let (n, rest, p, l) = read_le_enough w ds h in ((n, rest), rw (p, field), l)

field_short : (e : DecodeError) (w : ℕ) (ds : List ℕ) → length ds < w → field e w ds ≡ err e
unfolding field
field_short e w ds h = rw (read_le_short w ds h, field)

module _ {A : Type 0} (e : DecodeError) (w v : ℕ)
    (f : ℕ × List ℕ → Result DecodeError (A × List ℕ)) where
  bind_enough :
      (ds : List ℕ)
      → ((r : ℕ × List ℕ) → v ≤ length r.1 → Took v r.1 (f r))
      → w + v ≤ length ds
      → Took (w + v) ds (field e w ds >>= f)
  bind_enough ds next h =
      let (r, p, l) = field_enough e w ds (omega arith) in
      let (s, q, m) = next r (omega (arith, l)) in (s, rw p q, omega (arith, l, m))

  bind_short :
      (ds : List ℕ)
      → ((r : ℕ × List ℕ) → length r.1 < v → f r ≡ err e)
      → length ds < w + v
      → (field e w ds >>= f) ≡ err e
  bind_short ds next h = elim (le_or_lt w (length ds)) [
    | inl k ↦ let (r, p, l) = field_enough e w ds k in rw p (next r (omega (arith, l)))
    | inr k ↦ rw (field_short e w ds k)
  ]

read_mapping_enough : (ds : List ℕ) → 40 ≤ length ds → Took 40 ds (read_mapping ds)
unfolding read_mapping
read_mapping_enough ds = bind_enough bad_mapping 8 32 _ ds (λ a.
    bind_enough bad_mapping 8 24 _ a.1 (λ b.
      bind_enough bad_mapping 16 8 _ b.1
        (λ c. bind_enough bad_mapping 8 0 _ c.1 (λ d h. (_, refl, omega arith)))))

read_mapping_short : (ds : List ℕ) → length ds < 40 → read_mapping ds ≡ err bad_mapping
unfolding read_mapping
read_mapping_short ds = bind_short bad_mapping 8 32 _ ds (λ a.
    bind_short bad_mapping 8 24 _ a.1 (λ b.
      bind_short bad_mapping 16 8 _ b.1
        (λ c. bind_short bad_mapping 8 0 _ c.1 (λ d h. absurd (omega arith)))))

read_metadata_enough : (ds : List ℕ) → 64 ≤ length ds → Took 64 ds (read_metadata ds)
unfolding read_metadata
read_metadata_enough ds = bind_enough bad_metadata 8 56 _ ds (λ a.
    bind_enough bad_metadata 8 48 _ a.1 (λ b. bind_enough bad_metadata 8 40 _ b.1 (λ c.
      bind_enough bad_metadata 8 32 _ c.1 (λ d.
        bind_enough bad_metadata 16 16 _ d.1
          (λ f. bind_enough bad_metadata 16 0 _ f.1 (λ g h. (_, refl, omega arith)))))))

-- Fewer than 64 bytes have no metadata.
pub read_metadata_short : (ds : List ℕ) → length ds < 64 → read_metadata ds ≡ err bad_metadata
unfolding read_metadata
read_metadata_short ds = bind_short bad_metadata 8 56 _ ds (λ a.
    bind_short bad_metadata 8 48 _ a.1 (λ b. bind_short bad_metadata 8 40 _ b.1 (λ c.
      bind_short bad_metadata 8 32 _ c.1 (λ d.
        bind_short bad_metadata 16 16 _ d.1
          (λ f. bind_short bad_metadata 16 0 _ f.1 (λ g h. absurd (omega arith)))))))

read_mappings_whole :
    (fuel : ℕ) (ds : List ℕ)
    → length ds ≤ fuel
    → length ds % 40 ≡ 0
    → (ms : List BuildMap) × (read_mappings fuel ds ≡ ok ms)
read_mappings_whole fuel [] h d = ([], unfold read_mappings in refl)
read_mappings_whole zero (b ∷ bs) h d = absurd (omega arith)
read_mappings_whole (suc fuel) (b ∷ bs) h d =
    let (r, e, l) = read_mapping_enough (b ∷ bs) (omega arith) in
    let (ms, g) = read_mappings_whole fuel r.1 (omega (arith, l)) (omega (arith, l)) in
    (r.0 ∷ ms, read_mappings_step fuel (b ∷ bs) r.1 r.0 e ∙ rw g)

read_mappings_ragged :
    (fuel : ℕ) (ds : List ℕ)
    → length ds ≤ fuel
    → length ds % 40 ≢ 0
    → read_mappings fuel ds ≡ err bad_mapping
read_mappings_ragged fuel [] h d = absurd (d refl)
read_mappings_ragged zero (b ∷ bs) h d = absurd (omega arith)
read_mappings_ragged (suc fuel) (b ∷ bs) h d = elim (le_or_lt 40 (length (b ∷ bs))) [
  | inl k ↦
      let (r, e, l) = read_mapping_enough (b ∷ bs) k in
      read_mappings_step fuel (b ∷ bs) r.1 r.0 e
      ∙ rw (read_mappings_ragged fuel r.1 (omega (arith, l)) (λ z. d (omega (arith, l, z))))
  | inr k ↦ unfold read_mappings in rw (read_mapping_short (b ∷ bs) k)
]

-- From 64 bytes and a multiple of 40 more, whatever they are, `DeserializeBytes` reads metadata
-- and mappings.
decode_whole :
    (ds : List ℕ)
    → 64 ≤ length ds
    → (length ds - 64) % 40 ≡ 0
    → (metadata : Metadata) × (ms : List BuildMap) × (decode ds ≡ ok (metadata, ms))
unfolding decode
decode_whole ds h d =
    let (r, e, l) = read_metadata_enough ds h in
    let (ms, g) = read_mappings_whole (length r.1) r.1 (omega arith) (omega (arith, l)) in
    (r.0, ms, rw (e, g))

-- From 64 bytes and more that are no multiple of 40, whatever they are, `DeserializeBytes` fails
-- to read a mapping.
decode_ragged :
    (ds : List ℕ) → 64 ≤ length ds → (length ds - 64) % 40 ≢ 0 → decode ds ≡ err bad_mapping
unfolding decode
decode_ragged ds h d =
    let (r, e, l) = read_metadata_enough ds h in
    rw (e, read_mappings_ragged (length r.1) r.1 (omega arith) (λ z. d (omega (arith, l, z))))

-- From 64 bytes or more, whatever they are: `DeserializeBytes` reads metadata and mappings if what
-- stands behind the first 64 is a multiple of 40 long, and fails to read a mapping otherwise.
pub decode_lengths :
    (ds : List ℕ)
    → 64 ≤ length ds
    → (((length ds - 64) % 40 ≡ 0)
        × ((metadata : Metadata) × (ms : List BuildMap) × (decode ds ≡ ok (metadata, ms))))
      ⊎ (((length ds - 64) % 40 ≢ 0) × (decode ds ≡ err bad_mapping))
decode_lengths ds h = elim (Bool-cases ((length ds - 64) % 40 == 0)) [
  | inl e ↦
      let z : (length ds - 64) % 40 ≡ 0 = (==_iff ((length ds - 64) % 40) 0).0 e in
      inl (z, decode_whole ds h z)
  | inr e ↦
      let n : (length ds - 64) % 40 ≢ 0 = λ z. cc (e, (==_iff ((length ds - 64) % 40) 0).1 z) in
      inr (n, decode_ragged ds h n)
]
