-- ===== src/Identifiers/Hosts/Examples.antt =====
-- Hosts on small inputs.
use aether_agent.Prelude.{false, [], ◌≡◌, refl, cut, parse_digits, codes, ok, arith}
use aether_agent.Identifiers.Names.{validate_sandbox_id, match_string, all_bytes, is_sandbox_byte}
use aether_agent.Identifiers.Hosts.{
  Target, parse_uint, first_parts, parse_host, get_target_from_request,
}
use aether_agent.Identifiers.Hosts.Accepts.{
  IsTarget, host_of, get_target_from_request-IsTarget, get_target_from_request-host_of,
}

abbrev target : Target
target = record { sandbox_id = codes "abc1"; port = 8080 }

-- What stands behind a second dash is not looked at.
more_dashes : get_target_from_request false [] [] (codes "8080-abc1-x.dev") ≡ ok target
unfolding get_target_from_request parse_host cut first_parts parse_uint parse_digits
    validate_sandbox_id match_string all_bytes is_sandbox_byte
more_dashes = refl

get_target_from_request-IsTarget_example : IsTarget target
get_target_from_request-IsTarget_example =
    get_target_from_request-IsTarget false [] [] (codes "8080-abc1-x.dev") target more_dashes

target_valid : IsTarget target
unfolding match_string all_bytes is_sandbox_byte
target_valid = (refl, omega arith)

get_target_from_request-host_of_example :
    get_target_from_request false [] [] (host_of target (codes "dev")) ≡ ok target
get_target_from_request-host_of_example =
    get_target_from_request-host_of target (codes "dev") target_valid
