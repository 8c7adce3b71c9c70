-- ===== src/Identifiers/Hosts.antt =====
-- packages/shared/pkg/proxy/host.go: the sandbox and the port that a request names, in its headers
-- or in its host.
pub mod Accepts
mod Examples
use aether_agent.Prelude.{
  ℕ, Bool, true, false, ◌&&◌, Option, none, some, List, [], ◌∷◌, ◌++◌, ltb, ◌==◌, if◌then◌else◌,
  Bytes, cut, parse_digits, u64_mod, Result, ok, err, ◌>>=◌,
}
use aether_agent.Identifiers.Names.{is_empty, validate_sandbox_id, NameError}

pub data HostError : Type 0 where
  invalid_host invalid_sandbox_id missing_sandbox_id missing_port : HostError
  invalid_sandbox_port : Bytes → HostError

pub record Target : Type 0 where
  pub sandbox_id : Bytes
  pub port : ℕ

abbrev pub in_range : Option ℕ → Option ℕ
in_range none = none
in_range (some n) = if ltb n u64_mod then some n else none

-- `strconv.ParseUint` in base 10, of 64 bits.
unfoldable pub parse_uint : Bytes → Option ℕ
unfolding parse_digits
parse_uint [] = none
parse_uint (c ∷ cs) = in_range (parse_digits 0 (c ∷ cs))

abbrev pub port_of : Bytes → Option ℕ → Result HostError ℕ
port_of s (some n) = ok n
port_of s none = err (invalid_sandbox_port s)

abbrev pub with_second : Bytes → Option Bytes → Option (Bytes × Bytes)
with_second first none = none
with_second first (some rest) = some (first, (cut rest 45).0)

-- The first two of the parts between the dashes; those behind them are not looked at.
unfoldable pub first_parts : Bytes → Option (Bytes × Bytes)
unfolding cut
first_parts s = let (first, rest) = cut s 45 in with_second first rest

abbrev pub host_target : Option (Bytes × Bytes) → Result HostError Target
host_target none = err invalid_host
host_target (some (port_string, sandbox_id)) = do
  port ← port_of port_string (parse_uint port_string)
  ok (record { sandbox_id = sandbox_id; port = port })

abbrev pub before_dot : Bytes → Option Bytes → Result HostError Target
before_dot label none = err invalid_host
before_dot label (some domain) = host_target (first_parts label)

unfoldable pub parse_host : Bytes → Result HostError Target
unfolding cut first_parts parse_uint
parse_host host = let (label, domain) = cut host 46 in before_dot label domain

-- The values of the two headers; a missing one is empty. `none` is a request without either.
unfoldable pub parse_headers : Bytes → Bytes → Result HostError (Option Target)
unfolding parse_uint
parse_headers sandbox_id port_string =
    if is_empty sandbox_id && is_empty port_string
    then ok none
    else if is_empty sandbox_id
    then err missing_sandbox_id
    else if is_empty port_string
    then err missing_port
    else do
      port ← port_of port_string (parse_uint port_string)
      ok (some (record { sandbox_id = sandbox_id; port = port }))

abbrev pub no_name_error : Target → Option NameError → Result HostError Target
no_name_error t none = ok t
no_name_error t (some e) = err invalid_sandbox_id

abbrev pub validated : Target → Result HostError Target
validated t = no_name_error t (validate_sandbox_id t.sandbox_id)

abbrev pub or_host : Option Target → Bytes → Result HostError Target
or_host (some t) host = validated t
or_host none host = parse_host host >>= validated

-- `processHeaders`, the two headers and the host of the request.
unfoldable pub get_target_from_request : Bool → Bytes → Bytes → Bytes → Result HostError Target
unfolding parse_host parse_headers validate_sandbox_id
get_target_from_request false sandbox_id port_string host = or_host none host
get_target_from_request true sandbox_id port_string host = do
  target ← parse_headers sandbox_id port_string
  or_host target host
