-- ===== src/Identifiers/Names/Tags.antt =====
-- The tags of a template.
use aether_agent.Prelude.{
  Bool, true, false, List, [], ◌∷◌, ◌≡◌, inl, inr, Bool-cases, All, Bytes, ok, err, bind_ok,
  if◌then◌else◌,
}
use aether_agent.Identifiers.Names.{
  invalid_tag, tag_is_uuid, is_tag_byte, match_string, clean_and_validate, validate_tag, is_seen,
  collect_tags, validate_and_deduplicate_tags,
}
use aether_agent.Identifiers.Names.Clean.{clean_matches}

-- A tag in its normal form that is no UUID.
abbrev pub IsTag : (Bytes → Bool) → Bytes → Type 0
IsTag is_uuid t = (match_string is_tag_byte t ≡ true) × (is_uuid t ≡ false)

-- No tag comes twice.
abbrev pub IsDistinct : List Bytes → Type 0
IsDistinct [] = Unit
IsDistinct (t ∷ ts) = (is_seen t ts ≡ false) × IsDistinct ts

validate_tag-IsTag :
    (is_uuid : Bytes → Bool) (tag t : Bytes) → validate_tag is_uuid tag ≡ ok t → IsTag is_uuid t
unfolding validate_tag
validate_tag-IsTag is_uuid tag t h =
    let (c, e, k) =
      bind_ok (clean_and_validate tag invalid_tag is_tag_byte)
        (λ c. if is_uuid c then err tag_is_uuid else ok c) t h in
    elim (Bool-cases (is_uuid c)) [
      | inl f ↦ cc (rw f at k)
      | inr f ↦
          let q : c ≡ t = cc (rw f at k) in
          rw (← q) (clean_matches tag invalid_tag is_tag_byte c e, f)
    ]

collect_tags_lem :
    (is_uuid : Bytes → Bool) (tags seen ts : List Bytes)
    → All (IsTag is_uuid) seen
    → IsDistinct seen
    → collect_tags is_uuid tags seen ≡ ok ts
    → All (IsTag is_uuid) ts × IsDistinct ts
unfolding collect_tags
collect_tags_lem is_uuid [] seen ts a d h = let q : seen ≡ ts = cc h in rw (← q) (a, d)
collect_tags_lem is_uuid (tag ∷ tags) seen ts a d h =
    let (c, e, k) =
      bind_ok (validate_tag is_uuid tag)
        (λ c. collect_tags is_uuid tags (if is_seen c seen then seen else c ∷ seen)) ts h in
    elim (Bool-cases (is_seen c seen)) [
      | inl f ↦ collect_tags_lem is_uuid tags seen ts a d (rw f at k)
      | inr f ↦
          collect_tags_lem is_uuid tags (c ∷ seen) ts (validate_tag-IsTag is_uuid tag c e, a) (f, d)
            (rw f at k)
    ]

validate_and_deduplicate_tags_lem :
    (is_uuid : Bytes → Bool) (tags ts : List Bytes)
    → validate_and_deduplicate_tags is_uuid tags ≡ ok ts
    → All (IsTag is_uuid) ts × IsDistinct ts
unfolding validate_and_deduplicate_tags
validate_and_deduplicate_tags_lem is_uuid tags ts h = collect_tags_lem is_uuid tags [] ts tt tt h
