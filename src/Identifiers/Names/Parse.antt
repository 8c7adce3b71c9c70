-- ===== src/Identifiers/Names/Parse.antt =====
-- What `ParseName` accepts, and that it reads back what it returns.
use aether_agent.Prelude.{
  ℕ, ◌≢◌, Bool, true, ◌||◌, Option, none, some, ◌==◌, ◌≡◌, refl, ap, sym, subst, ◌∙◌, arith, inl,
  inr, Bool-cases, Option-cases, Bytes, same, cut, Result, ok, ◌>>=◌, bind_ok,
}
use aether_agent.Identifiers.Names.{
  NameError, invalid_tag, invalid_namespace, invalid_template, default_tag, tag_separator,
  is_identifier_byte, is_tag_byte, all_bytes, match_string, to_lower, trim_space,
  clean_and_validate, parts_of, split_identifier, with_tag, with_namespace, other_than_default,
  parse_tag, parse_namespace, build_identifier, parse_name,
}
use aether_agent.Identifiers.Names.Clean.{
  tag_bytes-IsPlain, identifier_bytes-IsPlain, is_no_space, trim_space_same, no_spaces,
  all_bytes-append, all_bytes_mono, clean_valid, clean_matches, match-all_bytes, cut-append,
  cut-none,
}

-- A part that may be missing is of the class.
abbrev pub Matches : (ℕ → Bool) → Option Bytes → Type 0
Matches f none = Unit
Matches f (some s) = match_string f s ≡ true

-- The parts of a name in their normal form.
pub record IsName (namespace : Option Bytes) (alias : Bytes) (tag : Option Bytes) : Type 0 where
  pub namespace_matches : Matches is_identifier_byte namespace
  pub alias_matches : match_string is_identifier_byte alias ≡ true
  pub tag_matches : Matches is_tag_byte tag

-- The printed name.
abbrev pub tagged : Bytes → Option Bytes → Bytes
tagged identifier none = identifier
tagged identifier (some tag) = with_tag identifier tag

abbrev is_part_byte : ℕ → Bool
is_part_byte c = is_identifier_byte c || c == 47

part_no_colon : (b : ℕ) → is_part_byte b ≡ true → b ≢ 58
part_no_colon b h e = unfold is_identifier_byte in absurd (ground arith)

identifier_no_slash : (b : ℕ) → is_identifier_byte b ≡ true → b ≢ 47
identifier_no_slash b h = let (a, u, r, r') = identifier_bytes-IsPlain b h in r

identifier_parts :
    (s : Bytes) → match_string is_identifier_byte s ≡ true → all_bytes is_part_byte s ≡ true
identifier_parts s h =
    all_bytes_mono is_identifier_byte is_part_byte s (λ c e. rw e refl)
      (match-all_bytes is_identifier_byte s h)

build_parts :
    (namespace : Option Bytes) (alias : Bytes) (tag : Option Bytes)
    → IsName namespace alias tag
    → all_bytes is_part_byte (build_identifier namespace alias) ≡ true
unfolding with_namespace
build_parts none alias tag h = identifier_parts alias h.alias_matches
build_parts (some s) alias tag h =
    all_bytes-append is_part_byte s alias 47 (unfold is_identifier_byte in refl)
      (identifier_parts s h.namespace_matches) (identifier_parts alias h.alias_matches)

split-build :
    (namespace : Option Bytes) (alias : Bytes) (tag : Option Bytes)
    → IsName namespace alias tag
    → split_identifier (build_identifier namespace alias) ≡ (namespace, alias)
unfolding split_identifier with_namespace
split-build none alias tag h =
    ap (λ p. parts_of p.0 p.1)
      (cut-none is_identifier_byte 47 alias identifier_no_slash
        (match-all_bytes is_identifier_byte alias h.alias_matches))
split-build (some s) alias tag h =
    ap (λ p. parts_of p.0 p.1)
      (cut-append is_identifier_byte 47 s alias identifier_no_slash
        (match-all_bytes is_identifier_byte s h.namespace_matches))

cut-tagged :
    (identifier : Bytes) (tag : Option Bytes)
    → all_bytes is_part_byte identifier ≡ true
    → cut (tagged identifier tag) tag_separator ≡ (identifier, tag)
unfolding with_tag
cut-tagged identifier none h = cut-none is_part_byte 58 identifier part_no_colon h
cut-tagged identifier (some tag) h = cut-append is_part_byte 58 identifier tag part_no_colon h

part_no_space : (c : ℕ) → is_part_byte c ≡ true → is_no_space c ≡ true
part_no_space c h = unfold is_identifier_byte in ground arith

tagged_no_spaces :
    (identifier : Bytes) (tag : Option Bytes)
    → all_bytes is_part_byte identifier ≡ true
    → Matches is_tag_byte tag
    → all_bytes is_no_space (tagged identifier tag) ≡ true
unfolding with_tag
tagged_no_spaces identifier none h t =
    all_bytes_mono is_part_byte is_no_space identifier part_no_space h
tagged_no_spaces identifier (some tag) h t =
    all_bytes-append is_no_space identifier tag 58 refl
      (all_bytes_mono is_part_byte is_no_space identifier part_no_space h)
      (no_spaces is_tag_byte tag tag_bytes-IsPlain (match-all_bytes is_tag_byte tag t))

-- The tag that is returned.
abbrev pub kept_tag : Option Bytes → Option Bytes
kept_tag none = none
kept_tag (some tag) = other_than_default tag

parse_tag_valid : (tag : Option Bytes) → Matches is_tag_byte tag → parse_tag tag ≡ ok (kept_tag tag)
unfolding parse_tag
parse_tag_valid none h = refl
parse_tag_valid (some tag) h = rw (clean_valid tag invalid_tag is_tag_byte tag_bytes-IsPlain h) refl

parse_namespace_valid :
    (namespace : Option Bytes)
    → Matches is_identifier_byte namespace
    → parse_namespace namespace ≡ ok namespace
unfolding parse_namespace
parse_namespace_valid none h = refl
parse_namespace_valid (some s) h =
    rw (clean_valid s invalid_namespace is_identifier_byte identifier_bytes-IsPlain h) refl

parse_name-build :
    (namespace : Option Bytes) (alias : Bytes) (tag : Option Bytes)
    → IsName namespace alias tag
    → parse_name (tagged (build_identifier namespace alias) tag)
      ≡ ok (build_identifier namespace alias, kept_tag tag)
unfolding parse_name
parse_name-build namespace alias tag h =
    let parts = build_parts namespace alias tag h in
    let t =
      trim_space_same (tagged (build_identifier namespace alias) tag)
        (tagged_no_spaces (build_identifier namespace alias) tag parts h.tag_matches) in
    let c = cut-tagged (build_identifier namespace alias) tag parts in
    let s = split-build namespace alias tag h in
    rw
      (
        t,
        ap (λ p. p.0) c,
        ap (λ p. p.1) c,
        ap (λ p. p.0) s,
        ap (λ p. p.1) s,
        parse_tag_valid tag h.tag_matches,
        parse_namespace_valid namespace h.namespace_matches,
        clean_valid alias invalid_template is_identifier_byte identifier_bytes-IsPlain
            h.alias_matches,
      )
      refl

other_than_default-kept :
    (v t : Bytes) → other_than_default v ≡ some t → (t ≡ v) × (other_than_default t ≡ some t)
unfolding other_than_default
other_than_default-kept v t h = elim (Bool-cases (same (to_lower v) default_tag)) [
  | inl e ↦ cc (rw e at h)
  | inr e ↦ let q : v ≡ t = cc (rw e at h) in (sym q, rw (← q, e) refl)
]

parse_tag-kept :
    (part tag : Option Bytes)
    → parse_tag part ≡ ok tag
    → (kept_tag tag ≡ tag) × Matches is_tag_byte tag
unfolding parse_tag
parse_tag-kept none tag h =
    let q : none ≡ tag = cc h in (rw (← q) refl, subst (Matches is_tag_byte) q tt)
parse_tag-kept (some part) tag h =
    let (v, e, r) =
      bind_ok (clean_and_validate part invalid_tag is_tag_byte) (λ x. ok (other_than_default x)) tag
        h in
    let q : other_than_default v ≡ tag = cc r in
    elim (Option-cases tag) [
      | inl n ↦ (rw n refl, rw n tt)
      | inr (t, n) ↦
          let (w, k) = other_than_default-kept v t (q ∙ n) in
          (rw n k, rw (n, w) (clean_matches part invalid_tag is_tag_byte v e))
    ]

parse_namespace-kept :
    (part namespace : Option Bytes)
    → parse_namespace part ≡ ok namespace
    → Matches is_identifier_byte namespace
unfolding parse_namespace
parse_namespace-kept none namespace h =
    let q : none ≡ namespace = cc h in subst (Matches is_identifier_byte) q tt
parse_namespace-kept (some part) namespace h =
    let (v, e, r) =
      bind_ok (clean_and_validate part invalid_namespace is_identifier_byte) (λ x. ok (some x))
        namespace h in
    let z : some v ≡ namespace = cc r in
    rw (← z) (clean_matches part invalid_namespace is_identifier_byte v e)

-- The parts that an accepted name was read as.
parse_name-IsName :
    (input identifier : Bytes) (tag : Option Bytes)
    → parse_name input ≡ ok (identifier, tag)
    → (namespace : Option Bytes) × (alias : Bytes) × IsName namespace alias tag
      × (build_identifier namespace alias ≡ identifier)
      × (kept_tag tag ≡ tag)
unfolding parse_name
parse_name-IsName input identifier tag h =
    let c = cut (trim_space input) tag_separator in
    let sp = split_identifier c.0 in
    let last : Option Bytes → Option Bytes → Result NameError (Bytes × Option Bytes) = λ t n.
      clean_and_validate sp.1 invalid_template is_identifier_byte
      >>= (λ alias. ok (build_identifier n alias, t)) in
    let (t, e1, h1) =
      bind_ok (parse_tag c.1) (λ t. parse_namespace sp.0 >>= (λ n. last t n)) (identifier, tag) h in
    let (n, e2, h2) = bind_ok (parse_namespace sp.0) (λ n. last t n) (identifier, tag) h1 in
    let (alias, e3, h3) =
      bind_ok (clean_and_validate sp.1 invalid_template is_identifier_byte)
        (λ alias. ok (build_identifier n alias, t)) (identifier, tag) h2 in
    let q : ◌≡◌ {A = Bytes × Option Bytes} (build_identifier n alias, t) (identifier, tag) =
      cc h3 in
    let k : t ≡ tag = ap (λ p. p.1) q in
    let (kept, matches) = parse_tag-kept c.1 tag (e1 ∙ ap ok k) in
    (
      n,
      alias,
      record {
        namespace_matches = parse_namespace-kept sp.0 n e2;
        alias_matches = clean_matches sp.1 invalid_template is_identifier_byte alias e3;
        tag_matches = matches;
      },
      ap (λ p. p.0) q,
      kept,
    )

-- A name that `ParseName` returns, with its tag appended if there is one, is read as the same name
-- and tag.
pub parse_name-tagged :
    (input identifier : Bytes) (tag : Option Bytes)
    → parse_name input ≡ ok (identifier, tag)
    → parse_name (tagged identifier tag) ≡ ok (identifier, tag)
parse_name-tagged input identifier tag h =
    let (n, alias, name, q, k) = parse_name-IsName input identifier tag h in
    rw (← q) (parse_name-build n alias tag name ∙ ap (λ t. ok (build_identifier n alias, t)) k)
