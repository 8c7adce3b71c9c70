-- ===== src/Identifiers/Keys/Mask.antt =====
-- What a mask shows of a key.
use aether_agent.Prelude.{
  ℕ, ◌+◌, ◌-◌, ◌≤◌, ◌<◌, Bool-cases, ◌++◌, ltb, ◌==◌, ==_iff, ◌≡◌, refl, sym, ap, ◌∙◌, arith, inl,
  inr, ◌⊎◌, length, take, drop, length-take, length-drop, take-add, take-drop, append_assoc, Bytes,
  ok, err, if◌then◌else◌,
}
use aether_agent.Identifiers.Keys.{MaskedIdentifier, shorter_than_suffix, equal_to_suffix, mask_key}

-- The value is its two ends and what the mask hides.
pub record Shows (value : Bytes) (m : MaskedIdentifier) : Type 0 where
  pub hidden : Bytes
  pub whole : m.masked_value_prefix ++ (hidden ++ m.masked_value_suffix) ≡ value
  pub hides : length hidden ≡ length value - 6
  pub suffix_length : length m.masked_value_suffix ≡ 4
  pub prefix_length : length m.masked_value_prefix ≤ 2

abbrev masked_at : ℕ → Bytes → Bytes → MaskedIdentifier
masked_at p prefix value = record {
  prefix = prefix;
  value_length = length value;
  masked_value_prefix = take p value;
  masked_value_suffix = drop (length value - 4) value;
}

Shows-at :
    (p : ℕ) (prefix value : Bytes)
    → 5 ≤ length value
    → p ≤ 2
    → p ≤ length value - 4
    → length value - 4 - p ≡ length value - 6
    → Shows value (masked_at p prefix value)
Shows-at p prefix value h l k e =
    let n : p + (length value - 4 - p) ≡ length value - 4 = omega (arith, k) in
    record {
      hidden = take (length value - 4 - p) (drop p value);
      whole =
          sym (
            append_assoc (take p value) (take (length value - 4 - p) (drop p value))
              (drop (length value - 4) value))
          ∙ ap (λ t. t ++ drop (length value - 4) value)
              (take-add p (length value - 4 - p) value ∙ ap (λ x. take x value) n)
          ∙ take-drop (length value - 4) value;
      hides =
          omega
            (arith, length-take (length value - 4 - p) (drop p value), length-drop p value, e, h);
      suffix_length = omega (arith, length-drop (length value - 4) value, h);
      prefix_length = omega (arith, length-take p value, l);
    }

shows :
    (prefix value : Bytes)
    → 5 ≤ length value
    → Shows value
        (masked_at (if ltb (length value - 4) 2 then length value - 4 else 2) prefix value)
shows prefix value h = elim (Bool-cases (ltb (length value - 4) 2)) [
  | inl e ↦
      let b : length value - 4 < 2 = ground arith in
      rw e (
        Shows-at (length value - 4) prefix value h (omega (arith, b)) (omega arith)
          (omega (arith, b)))
  | inr e ↦
      let b : 2 ≤ length value - 4 = ground arith in
      rw e (Shows-at 2 prefix value h (omega arith) b (omega arith))
]

-- `MaskKey` refuses values of fewer than five bytes, with one error for fewer than four and
-- another for four. Of any other value the mask shows a prefix of at most two bytes and a suffix
-- of four, which do not overlap: the value is the two and, between them, the hidden bytes, all but
-- six of its bytes. Of a value of five or six bytes none is hidden.
pub mask_key_lem :
    (prefix value : Bytes)
    → ((length value < 4) × (mask_key prefix value ≡ err shorter_than_suffix))
      ⊎ (((length value ≡ 4) × (mask_key prefix value ≡ err equal_to_suffix))
          ⊎ ((5 ≤ length value)
              × ((m : MaskedIdentifier) × (mask_key prefix value ≡ ok m)
                  × (m.prefix ≡ prefix)
                  × (m.value_length ≡ length value)
                  × Shows value m)))
unfolding mask_key
mask_key_lem prefix value = elim (Bool-cases (ltb (length value) 4)) [
  | inl e ↦ inl (ground arith, rw e refl)
  | inr e ↦ elim (Bool-cases (length value == 4)) [
    | inl f ↦ inr (inl ((==_iff (length value) 4).0 f, rw (e, f) refl))
    | inr f ↦ inr (
        inr (
          ground arith,
          (
            masked_at (if ltb (length value - 4) 2 then length value - 4 else 2) prefix value,
            rw (e, f) refl,
            refl,
            refl,
            shows prefix value (ground arith),
          ),
        ))
  ]
]
