-- ===== src/Header/Normalize.antt =====
-- `NormalizeMappings` of packages/shared/pkg/storage/header/mapping.go. `current` is the copy that
-- grows; it is appended when a mapping of another build, or the end of the slice, follows.
pub mod Meaning
use aether_agent.Prelude.{ℕ, List, [], ◌∷◌, ◌==◌, if◌then◌else◌, add64}
use aether_agent.Header.Mapping.{BuildMap, copy}

unfoldable pub normalize_loop : BuildMap → List BuildMap → List BuildMap
unfolding copy
normalize_loop current [] = current ∷ []
normalize_loop current (mp ∷ mappings) =
    let started = current ∷ normalize_loop (copy mp) mappings in
    let grown =
      normalize_loop (record current { length = add64 current.length mp.length }) mappings in
    if mp.build_id == current.build_id then grown else started

-- NormalizeMappings joins adjacent mappings that have the same buildId.
unfoldable pub normalize_mappings : List BuildMap → List BuildMap
unfolding copy normalize_loop
normalize_mappings [] = []
normalize_mappings (first ∷ mappings) = normalize_loop (copy first) mappings
