-- ===== src/Identifiers/Names/Clean.antt =====
-- Valid parts of a name, which cleaning leaves alone.
use aether_agent.Prelude.{
  ℕ, ◌≢◌, Bool, true, false, not, ◌&&◌, none, some, [], ◌∷◌, ◌++◌, leb, ◌==◌, ==_iff, ==_ne, ◌≡◌,
  refl, ap, arith, inl, inr, Bool-cases, Bytes, cut, ok,
}
use aether_agent.Identifiers.Names.{
  NameError, is_identifier_byte, is_tag_byte, all_bytes, is_empty, match_string, to_lower, is_space,
  trim_left, trim_right, trim_space, clean_and_validate,
}

abbrev pub is_upper : ℕ → Bool
is_upper b = leb 65 b && leb b 90

-- What the bytes of a class have in common.
abbrev pub IsPlain : (ℕ → Bool) → Type 0
IsPlain f = (c : ℕ) → f c ≡ true → (is_space c ≡ false) × (is_upper c ≡ false) × (c ≢ 47) × (c ≢ 58)

pub tag_bytes-IsPlain : IsPlain is_tag_byte
unfolding is_tag_byte
tag_bytes-IsPlain c h =
    (ground arith, ground arith, λ e. absurd (ground arith), λ e. absurd (ground arith))

pub identifier_bytes-IsPlain : IsPlain is_identifier_byte
unfolding is_identifier_byte
identifier_bytes-IsPlain c h =
    (ground arith, ground arith, λ e. absurd (ground arith), λ e. absurd (ground arith))

-- What a conjunction that holds consists of.
and_true : (a b : Bool) → (a && b) ≡ true → (a ≡ true) × (b ≡ true)
and_true true b h = (refl, h)
and_true false b h = cc

all_bytes-cons :
    (f : ℕ → Bool) (b : ℕ) (s : Bytes)
    → all_bytes f (b ∷ s) ≡ true
    → (f b ≡ true) × (all_bytes f s ≡ true)
unfolding all_bytes
all_bytes-cons f b s h = and_true (f b) (all_bytes f s) h

to_lower_same : (f : ℕ → Bool) (s : Bytes) → IsPlain f → all_bytes f s ≡ true → to_lower s ≡ s
unfolding to_lower
to_lower_same f [] p h = refl
to_lower_same f (b ∷ s) p h =
    let (x, y) = all_bytes-cons f b s h in
    let (a, u, r, r') = p b x in rw (u, to_lower_same f s p y) refl

abbrev pub is_no_space : ℕ → Bool
is_no_space b = not (is_space b)

trim_right_same : (s : Bytes) → all_bytes is_no_space s ≡ true → trim_right s ≡ s
unfolding trim_right
trim_right_same [] h = refl
trim_right_same (b ∷ s) h =
    let (x, y) = all_bytes-cons is_no_space b s h in
    elim (Bool-cases (is_space b)) [
      | inl e ↦ cc (rw e at x)
      | inr e ↦ rw (e, trim_right_same s y) refl
    ]

trim_left_same : (s : Bytes) → all_bytes is_no_space s ≡ true → trim_left s ≡ s
unfolding trim_left
trim_left_same [] h = refl
trim_left_same (b ∷ s) h =
    let (x, y) = all_bytes-cons is_no_space b s h in
    elim (Bool-cases (is_space b)) [ inl e ↦ cc (rw e at x) | inr e ↦ rw e refl ]

pub trim_space_same : (s : Bytes) → all_bytes is_no_space s ≡ true → trim_space s ≡ s
unfolding trim_space
trim_space_same s h = rw (trim_left_same s h) (trim_right_same s h)

pub all_bytes_mono :
    (f g : ℕ → Bool) (s : Bytes)
    → ((c : ℕ) → f c ≡ true → g c ≡ true)
    → all_bytes f s ≡ true
    → all_bytes g s ≡ true
unfolding all_bytes
all_bytes_mono f g [] p h = refl
all_bytes_mono f g (b ∷ s) p h =
    let (x, y) = all_bytes-cons f b s h in rw (p b x, all_bytes_mono f g s p y) refl

pub all_bytes-append :
    (f : ℕ → Bool) (s t : Bytes) (c : ℕ)
    → f c ≡ true
    → all_bytes f s ≡ true
    → all_bytes f t ≡ true
    → all_bytes f (s ++ (c ∷ t)) ≡ true
unfolding all_bytes
all_bytes-append f [] t c e h k = rw (e, k) refl
all_bytes-append f (b ∷ s) t c e h k =
    let (x, y) = all_bytes-cons f b s h in rw (x, all_bytes-append f s t c e y k) refl

pub no_spaces :
    (f : ℕ → Bool) (s : Bytes) → IsPlain f → all_bytes f s ≡ true → all_bytes is_no_space s ≡ true
no_spaces f s p h = all_bytes_mono f is_no_space s (λ c e. let (a, u, r, r') = p c e in rw a refl) h

-- A string of the class is what it was after cleaning, and is accepted.
pub clean_valid :
    (s : Bytes) (name : NameError) (f : ℕ → Bool)
    → IsPlain f
    → match_string f s ≡ true
    → clean_and_validate s name f ≡ ok s
unfolding clean_and_validate
clean_valid s name f p h =
    let a : all_bytes f s ≡ true =
      (and_true (not (is_empty s)) (all_bytes f s) (unfold match_string in h)).1 in
    rw (trim_space_same s (no_spaces f s p a), to_lower_same f s p a, h) refl

-- What is accepted is a string of the class.
pub clean_matches :
    (v : Bytes) (name : NameError) (f : ℕ → Bool) (s : Bytes)
    → clean_and_validate v name f ≡ ok s
    → match_string f s ≡ true
unfolding clean_and_validate
clean_matches v name f s h = elim (Bool-cases (match_string f (to_lower (trim_space v)))) [
  | inl e ↦ let q : to_lower (trim_space v) ≡ s = cc (rw e at h) in rw (← q) e
  | inr e ↦ cc (rw e at h)
]

pub match-all_bytes : (f : ℕ → Bool) (s : Bytes) → match_string f s ≡ true → all_bytes f s ≡ true
unfolding match_string
match-all_bytes f s h = (and_true (not (is_empty s)) (all_bytes f s) h).1

-- A cut at a byte that the class does not have.
pub cut-append :
    (f : ℕ → Bool) (c : ℕ) (s t : Bytes)
    → ((b : ℕ) → f b ≡ true → b ≢ c)
    → all_bytes f s ≡ true
    → cut (s ++ (c ∷ t)) c ≡ (s, some t)
unfolding cut
cut-append f c [] t n h = rw ((==_iff c c).1 refl) refl
cut-append f c (b ∷ s) t n h =
    let (x, y) = all_bytes-cons f b s h in
    let e : (b == c) ≡ false = ==_ne b c (n b x) in
    let ih = cut-append f c s t n y in rw (e, ap (λ p. p.0) ih, ap (λ p. p.1) ih) refl

pub cut-none :
    (f : ℕ → Bool) (c : ℕ) (s : Bytes)
    → ((b : ℕ) → f b ≡ true → b ≢ c)
    → all_bytes f s ≡ true
    → cut s c ≡ (s, none)
unfolding cut
cut-none f c [] n h = refl
cut-none f c (b ∷ s) n h =
    let (x, y) = all_bytes-cons f b s h in
    let e : (b == c) ≡ false = ==_ne b c (n b x) in
    let ih = cut-none f c s n y in rw (e, ap (λ p. p.0) ih, ap (λ p. p.1) ih) refl
