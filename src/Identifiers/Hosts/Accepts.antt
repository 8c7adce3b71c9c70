-- ===== src/Identifiers/Hosts/Accepts.antt =====
-- What a request may name, and how a host names it.
use aether_agent.Prelude.{
  subst, ℕ, zero, suc, ◌+◌, ◌/◌, ◌%◌, ◌^◌, ◌<◌, ◌≢◌, Bool, true, false, ◌&&◌, ◌||◌, Option, none,
  some, [], ◌∷◌, ◌++◌, ltb, ◌==◌, ◌≡◌, refl, ap, ◌∙◌, arith, inl, inr, Bool-cases, Bytes, cut,
  digits, parse_digits, parse_all_digits, first_digit, u64_mod, lt→ltb, ok, ◌>>=◌, bind_ok,
}
use aether_agent.Identifiers.Names.{
  is_empty, is_digit, is_sandbox_byte, all_bytes, match_string, validate_sandbox_id,
}
use aether_agent.Identifiers.Names.Clean.{
  all_bytes-append, all_bytes_mono, match-all_bytes, cut-append, cut-none,
}
use aether_agent.Identifiers.Hosts.{
  Target, in_range, with_second, parse_uint, port_of, first_parts, host_target, before_dot,
  parse_host, parse_headers, validated, or_host, get_target_from_request,
}

-- A sandbox's identifier and a port of 64 bits.
abbrev pub IsTarget : Target → Type 0
IsTarget t = (match_string is_sandbox_byte t.sandbox_id ≡ true) × (t.port < 2 ^ 64)

in_range_bound : (o : Option ℕ) (n : ℕ) → in_range o ≡ some n → n < 2 ^ 64
in_range_bound none n h = cc h
in_range_bound (some k) n h = elim (Bool-cases (ltb k u64_mod)) [
  | inl e ↦ let q : k ≡ n = cc (rw e at h) in ground arith
  | inr e ↦ cc (rw e at h)
]

parse_uint_bound : (s : Bytes) (n : ℕ) → parse_uint s ≡ some n → n < 2 ^ 64
unfolding parse_uint
parse_uint_bound [] n h = cc h
parse_uint_bound (c ∷ cs) n h = in_range_bound (parse_digits 0 (c ∷ cs)) n h

port_of-some : (s : Bytes) (o : Option ℕ) (n : ℕ) → port_of s o ≡ ok n → o ≡ some n
port_of-some s none n h = cc h
port_of-some s (some k) n h = cc h

-- The port, if there is a target.
abbrev IsBounded : Option Target → Type 0
IsBounded none = Unit
IsBounded (some t) = t.port < 2 ^ 64

validated-IsTarget : (t u : Target) → t.port < 2 ^ 64 → validated t ≡ ok u → IsTarget u
unfolding validate_sandbox_id
validated-IsTarget t u b h = elim (Bool-cases (match_string is_sandbox_byte t.sandbox_id)) [
  | inl e ↦ let q : t ≡ u = cc (rw e at h) in subst IsTarget q (e, b)
  | inr e ↦ cc (rw e at h)
]

host_target_bound :
    (p : Option (Bytes × Bytes)) (t : Target) → host_target p ≡ ok t → t.port < 2 ^ 64
host_target_bound none t h = cc h
host_target_bound (some p) t h =
    let (n, e, r) =
      bind_ok (port_of p.0 (parse_uint p.0)) (λ n. ok (record { sandbox_id = p.1; port = n })) t
        h in
    let q : record { sandbox_id = p.1; port = n } ≡ t = cc r in
    subst (λ u. u.port < 2 ^ 64) q (parse_uint_bound p.0 n (port_of-some p.0 (parse_uint p.0) n e))

parse_host_bound : (host : Bytes) (t : Target) → parse_host host ≡ ok t → t.port < 2 ^ 64
unfolding parse_host
parse_host_bound host t h = label (cut host 46).1 h
  where
    label : (o : Option Bytes) → before_dot (cut host 46).0 o ≡ ok t → t.port < 2 ^ 64
    label none k = cc k
    label (some d) k = host_target_bound (first_parts (cut host 46).0) t k

parse_headers-IsBounded :
    (sandbox_id port_string : Bytes) (o : Option Target)
    → parse_headers sandbox_id port_string ≡ ok o
    → IsBounded o
unfolding parse_headers
parse_headers-IsBounded sandbox_id port_string o h =
    elim (Bool-cases (is_empty sandbox_id && is_empty port_string)) [
      | inl e ↦ let q : none ≡ o = cc (rw e at h) in subst IsBounded q tt
      | inr e ↦ elim (Bool-cases (is_empty sandbox_id)) [
        | inl f ↦ cc (rw (e, f) at h)
        | inr f ↦ elim (Bool-cases (is_empty port_string)) [
          | inl g ↦ cc (rw (e, f, g) at h)
          | inr g ↦
              let (n, k, r) =
                bind_ok (port_of port_string (parse_uint port_string))
                  (λ n. ok (some (record { sandbox_id = sandbox_id; port = n }))) o
                  (rw (e, f, g) at h) in
              let q : some (record { sandbox_id = sandbox_id; port = n }) ≡ o = cc r in
              subst IsBounded q (
                parse_uint_bound port_string n
                  (port_of-some port_string (parse_uint port_string) n k))
        ]
      ]
    ]

or_host-IsTarget :
    (o : Option Target) (host : Bytes) (u : Target)
    → IsBounded o
    → or_host o host ≡ ok u
    → IsTarget u
or_host-IsTarget none host u b h =
    let (t, e, k) = bind_ok (parse_host host) validated u h in
    validated-IsTarget t u (parse_host_bound host t e) k
or_host-IsTarget (some t) host u b h = validated-IsTarget t u b h

-- Whatever the headers and the host are, a request is let through only with a sandbox identifier
-- of lower-case letters and digits, not empty, and a port below 2 ^ 64.
pub get_target_from_request-IsTarget :
    (process_headers : Bool) (sandbox_id port_string host : Bytes) (t : Target)
    → get_target_from_request process_headers sandbox_id port_string host ≡ ok t
    → IsTarget t
unfolding get_target_from_request
get_target_from_request-IsTarget false sandbox_id port_string host t h =
    or_host-IsTarget none host t tt h
get_target_from_request-IsTarget true sandbox_id port_string host t h =
    let (o, e, k) = bind_ok (parse_headers sandbox_id port_string) (λ o. or_host o host) t h in
    or_host-IsTarget o host t (parse_headers-IsBounded sandbox_id port_string o e) k

-- The host of a sandbox's port.
abbrev pub host_of : Target → Bytes → Bytes
host_of t domain = (digits 20 t.port ++ (45 ∷ t.sandbox_id)) ++ (46 ∷ domain)

digits_all : (fuel n : ℕ) → all_bytes is_digit (digits fuel n) ≡ true
unfolding digits all_bytes
digits_all zero n = refl
digits_all (suc fuel) n = elim (Bool-cases (ltb n 10)) [
  | inl e ↦ let d : is_digit (48 + n) ≡ true = ground arith in rw (e, d) refl
  | inr e ↦
      let m : n % 10 < 10 = omega arith in
      let d : is_digit (48 + n % 10) ≡ true = ground arith in
      rw e (
        all_bytes-append is_digit (digits fuel (n / 10)) [] (48 + n % 10) d
          (digits_all fuel (n / 10)) refl)
]

abbrev is_label_byte : ℕ → Bool
is_label_byte c = is_sandbox_byte c || c == 45

label_no_dot : (b : ℕ) → is_label_byte b ≡ true → b ≢ 46
label_no_dot b h e = unfold is_sandbox_byte in absurd (ground arith)

digit_no_dash : (b : ℕ) → is_digit b ≡ true → b ≢ 45
digit_no_dash b h e = absurd (ground arith)

digit_label : (b : ℕ) → is_digit b ≡ true → is_label_byte b ≡ true
digit_label b h = unfold is_sandbox_byte in ground arith

sandbox_no_dash : (b : ℕ) → is_sandbox_byte b ≡ true → b ≢ 45
sandbox_no_dash b h e = unfold is_sandbox_byte in absurd (ground arith)

parse_uint-some :
    (s : Bytes) (n c : ℕ) (cs : Bytes)
    → s ≡ c ∷ cs
    → parse_digits 0 s ≡ some n
    → n < 2 ^ 64
    → parse_uint s ≡ some n
unfolding parse_uint
parse_uint-some [] n c cs e p h = cc e
parse_uint-some (b ∷ bs) n c cs e p h = rw (p, lt→ltb n u64_mod h) refl

parse_uint-digits : (n : ℕ) → n < 2 ^ 64 → parse_uint (digits 20 n) ≡ some n
parse_uint-digits n h =
    let (c, cs, q, k) = first_digit 19 n in
    parse_uint-some (digits 20 n) n c cs q (parse_all_digits n (omega (arith, h))) h

first_parts-label :
    (t : Target)
    → IsTarget t
    → first_parts (digits 20 t.port ++ (45 ∷ t.sandbox_id)) ≡ some (digits 20 t.port, t.sandbox_id)
unfolding first_parts
first_parts-label t h =
    let name = match-all_bytes is_sandbox_byte t.sandbox_id h.0 in
    ap (λ p. with_second p.0 p.1)
      (cut-append is_digit 45 (digits 20 t.port) t.sandbox_id digit_no_dash (digits_all 20 t.port))
    ∙ ap (λ p. some (digits 20 t.port, p.0))
        (cut-none is_sandbox_byte 45 t.sandbox_id sandbox_no_dash name)

parse_host-host_of :
    (t : Target) (domain : Bytes) → IsTarget t → parse_host (host_of t domain) ≡ ok t
unfolding parse_host
parse_host-host_of t domain h =
    let name = match-all_bytes is_sandbox_byte t.sandbox_id h.0 in
    let label : all_bytes is_label_byte (digits 20 t.port ++ (45 ∷ t.sandbox_id)) ≡ true =
      all_bytes-append is_label_byte (digits 20 t.port) t.sandbox_id 45
        (unfold is_sandbox_byte in refl)
        (all_bytes_mono is_digit is_label_byte (digits 20 t.port) digit_label
          (digits_all 20 t.port))
        (all_bytes_mono is_sandbox_byte is_label_byte t.sandbox_id (λ c e. rw e refl) name) in
    ap (λ p. before_dot p.0 p.1)
      (cut-append is_label_byte 46 (digits 20 t.port ++ (45 ∷ t.sandbox_id)) domain label_no_dot
        label)
    ∙ ap host_target (first_parts-label t h)
    ∙ rw (parse_uint-digits t.port h.1) refl

-- The host `port-sandbox.domain` of any port below 2 ^ 64 and any valid sandbox identifier is read
-- as that port and sandbox, whatever the domain is.
pub get_target_from_request-host_of :
    (t : Target) (domain : Bytes)
    → IsTarget t
    → get_target_from_request false [] [] (host_of t domain) ≡ ok t
unfolding get_target_from_request parse_host
get_target_from_request-host_of t domain h =
    ap (λ r. r >>= validated) (parse_host-host_of t domain h)
    ∙ (unfold validate_sandbox_id in rw h.0 refl)
