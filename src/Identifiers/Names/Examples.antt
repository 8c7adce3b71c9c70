-- ===== src/Identifiers/Names/Examples.antt =====
-- Names on small inputs.
use aether_agent.Prelude.{some, ◌≡◌, refl, same, cut, codes, ok}
use aether_agent.Identifiers.Names.{
  parse_name, match_string, is_identifier_byte, is_tag_byte, all_bytes, trim_space, trim_left,
  trim_right, to_lower, clean_and_validate, split_identifier, with_namespace, other_than_default,
  parse_tag, parse_namespace, validate_namespace_matches_team, namespace_must_match,
}
use aether_agent.Identifiers.Names.Parse.{tagged, parse_name-tagged}

mixed_case : parse_name (codes " Team/Base:V1 ") ≡ ok (codes "team/base", some (codes "v1"))
unfolding parse_name trim_space trim_left trim_right cut split_identifier parse_tag parse_namespace
    clean_and_validate match_string all_bytes is_identifier_byte is_tag_byte to_lower
    other_than_default same with_namespace
mixed_case = refl

parse_name-tagged_example :
    parse_name (tagged (codes "team/base") (some (codes "v1")))
    ≡ ok (codes "team/base", some (codes "v1"))
parse_name-tagged_example =
    parse_name-tagged (codes " Team/Base:V1 ") (codes "team/base") (some (codes "v1")) mixed_case

-- A team may not name another's template.
other_team :
    validate_namespace_matches_team (codes "team/base") (codes "mine") ≡ some namespace_must_match
unfolding validate_namespace_matches_team split_identifier cut same
other_team = refl
