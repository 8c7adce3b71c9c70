-- ===== src/Identifiers/Names.antt =====
-- packages/shared/pkg/id/id.go: the names of templates, `namespace/alias:tag`. The strings are
-- ASCII, in which `ToLower` and `TrimSpace` look at single bytes; `uuid.Parse` is a parameter.
pub mod Clean
pub mod Parse
mod Tags
mod Examples
use aether_agent.Prelude.{
  ℕ, ◌+◌, Bool, true, false, not, ◌&&◌, ◌||◌, Option, none, some, List, [], ◌∷◌, ◌++◌, leb, ◌==◌,
  if◌then◌else◌, Bytes, codes, same, cut, Result, ok, err, ◌>>=◌,
}

pub data NameError : Type 0 where
  invalid_tag invalid_namespace invalid_template invalid_sandbox : NameError
  tag_is_uuid namespace_must_match : NameError

abbrev pub default_tag : Bytes
default_tag = codes "default"

-- `:` and `/`.
abbrev pub tag_separator : ℕ
tag_separator = 58

abbrev pub namespace_separator : ℕ
namespace_separator = 47

abbrev pub is_lower : ℕ → Bool
is_lower c = leb 97 c && leb c 122

abbrev pub is_digit : ℕ → Bool
is_digit c = leb 48 c && leb c 57

-- The classes of the three expressions, each `^[…]+$`.
unfoldable pub is_identifier_byte : ℕ → Bool
is_identifier_byte c = is_lower c || (is_digit c || (c == 45 || c == 95))

unfoldable pub is_tag_byte : ℕ → Bool
is_tag_byte c = is_lower c || (is_digit c || (c == 45 || (c == 95 || c == 46)))

unfoldable pub is_sandbox_byte : ℕ → Bool
is_sandbox_byte c = is_lower c || is_digit c

unfoldable pub all_bytes : (ℕ → Bool) → Bytes → Bool
all_bytes f [] = true
all_bytes f (b ∷ bs) = f b && all_bytes f bs

abbrev pub is_empty : Bytes → Bool
is_empty [] = true
is_empty (b ∷ bs) = false

unfoldable pub match_string : (ℕ → Bool) → Bytes → Bool
unfolding all_bytes
match_string f s = not (is_empty s) && all_bytes f s

unfoldable pub to_lower : Bytes → Bytes
to_lower [] = []
to_lower (b ∷ bs) = (if leb 65 b && leb b 90 then b + 32 else b) ∷ to_lower bs

-- Tab to carriage return, and the space.
abbrev pub is_space : ℕ → Bool
is_space b = b == 32 || (leb 9 b && leb b 13)

unfoldable pub trim_left : Bytes → Bytes
trim_left [] = []
trim_left (b ∷ bs) = if is_space b then trim_left bs else b ∷ bs

-- A byte stays if it is no space or something stays behind it.
unfoldable pub trim_right : Bytes → Bytes
trim_right [] = []
trim_right (b ∷ bs) =
    let rest = trim_right bs in if is_space b && is_empty rest then [] else b ∷ rest

unfoldable pub trim_space : Bytes → Bytes
unfolding trim_left trim_right
trim_space s = trim_right (trim_left s)

unfoldable pub validate_sandbox_id : Bytes → Option NameError
unfolding match_string is_sandbox_byte
validate_sandbox_id s = if match_string is_sandbox_byte s then none else some invalid_sandbox

unfoldable pub clean_and_validate : Bytes → NameError → (ℕ → Bool) → Result NameError Bytes
unfolding match_string to_lower trim_space
clean_and_validate value name re =
    let cleaned = to_lower (trim_space value) in
    if match_string re cleaned then ok cleaned else err name

abbrev pub parts_of : Bytes → Option Bytes → Option Bytes × Bytes
parts_of before none = (none, before)
parts_of before (some after) = (some before, after)

unfoldable pub split_identifier : Bytes → Option Bytes × Bytes
unfolding cut
split_identifier identifier =
    let (before, after) = cut identifier namespace_separator in parts_of before after

unfoldable pub with_tag : Bytes → Bytes → Bytes
with_tag identifier tag = identifier ++ (tag_separator ∷ tag)

unfoldable pub with_namespace : Bytes → Bytes → Bytes
with_namespace namespace alias = namespace ++ (namespace_separator ∷ alias)

-- `!strings.EqualFold(validated, DefaultTag)`; both are lower case.
unfoldable pub other_than_default : Bytes → Option Bytes
unfolding same to_lower
other_than_default validated =
    if same (to_lower validated) default_tag then none else some validated

unfoldable pub parse_tag : Option Bytes → Result NameError (Option Bytes)
unfolding clean_and_validate is_tag_byte other_than_default
parse_tag none = ok none
parse_tag (some tag) = do
  validated ← clean_and_validate tag invalid_tag is_tag_byte
  ok (other_than_default validated)

unfoldable pub parse_namespace : Option Bytes → Result NameError (Option Bytes)
unfolding clean_and_validate is_identifier_byte
parse_namespace none = ok none
parse_namespace (some namespace) = do
  validated ← clean_and_validate namespace invalid_namespace is_identifier_byte
  ok (some validated)

abbrev pub build_identifier : Option Bytes → Bytes → Bytes
build_identifier (some namespace) alias = with_namespace namespace alias
build_identifier none alias = alias

unfoldable pub parse_name : Bytes → Result NameError (Bytes × Option Bytes)
unfolding trim_space cut split_identifier parse_tag parse_namespace clean_and_validate
parse_name input =
    let (identifier_part, tag_part) = cut (trim_space input) tag_separator in
    let (namespace_part, alias_part) = split_identifier identifier_part in
    do
      tag ← parse_tag tag_part
      namespace ← parse_namespace namespace_part
      alias ← clean_and_validate alias_part invalid_template is_identifier_byte
      ok (build_identifier namespace alias, tag)

unfoldable pub extract_alias : Bytes → Bytes
unfolding split_identifier
extract_alias identifier = (split_identifier identifier).1

abbrev pub matches_team : Option Bytes → Bytes → Option NameError
matches_team none team_slug = none
matches_team (some namespace) team_slug =
    if same namespace team_slug then none else some namespace_must_match

unfoldable pub validate_namespace_matches_team : Bytes → Bytes → Option NameError
unfolding split_identifier same
validate_namespace_matches_team identifier team_slug =
    matches_team (split_identifier identifier).0 team_slug

-- `uuid.Parse` succeeds or not.
unfoldable pub validate_tag : (Bytes → Bool) → Bytes → Result NameError Bytes
unfolding clean_and_validate is_tag_byte
validate_tag is_uuid tag = do
  cleaned ← clean_and_validate tag invalid_tag is_tag_byte
  if is_uuid cleaned then err tag_is_uuid else ok cleaned

unfoldable pub is_seen : Bytes → List Bytes → Bool
unfolding same
is_seen tag [] = false
is_seen tag (t ∷ ts) = same t tag || is_seen tag ts

unfoldable pub collect_tags :
    (Bytes → Bool) → List Bytes → List Bytes → Result NameError (List Bytes)
unfolding validate_tag is_seen
collect_tags is_uuid [] seen = ok seen
collect_tags is_uuid (tag ∷ tags) seen = do
  cleaned ← validate_tag is_uuid tag
  collect_tags is_uuid tags (if is_seen cleaned seen then seen else cleaned ∷ seen)

-- The keys of a map, which come in some order; here the last insert comes first.
unfoldable pub validate_and_deduplicate_tags :
    (Bytes → Bool) → List Bytes → Result NameError (List Bytes)
unfolding collect_tags
validate_and_deduplicate_tags is_uuid tags = collect_tags is_uuid tags []
