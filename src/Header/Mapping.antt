-- ===== src/Header/Mapping.antt =====
-- The type of packages/shared/pkg/storage/header/mapping.go and what a list of mappings means.
-- A UUID is the number whose little-endian bytes are the array's, so `uuid.Nil` is 0.
use aether_agent.Prelude.{
  ℕ, ◌+◌, ◌-◌, ◌≤◌, ◌<◌, ◌≡◌, refl, ◌&&◌, Option, none, some, List, [], ◌∷◌, ◌++◌, arith, ltb, leb,
  if◌then◌else◌, or_else, add64, i64_max,
}

pub record BuildMap : Type 0 where
  pub offset : ℕ
  pub length : ℕ
  pub build_id : ℕ
  pub build_storage_offset : ℕ

unfoldable pub copy : BuildMap → BuildMap
copy m = record {
  offset = m.offset;
  length = m.length;
  build_id = m.build_id;
  build_storage_offset = m.build_storage_offset;
}

-- `m.Offset + m.Length` over uint64.
abbrev pub end_of : BuildMap → ℕ
end_of m = add64 m.offset m.length

abbrev pub Covers : BuildMap → ℕ → Type 0
Covers m x = (m.offset ≤ x) × (x < m.offset + m.length)

-- Where byte `x` of the file is stored: the build and the position in its data file.
unfoldable pub locate : List BuildMap → ℕ → Option (ℕ × ℕ)
locate [] x = none
locate (m ∷ ms) x =
    if leb m.offset x && ltb x (m.offset + m.length)
    then some (m.build_id, add64 m.build_storage_offset (x - m.offset))
    else locate ms x

-- In order, from `lo` on, disjoint, and with ends that an int64 holds.
abbrev pub IsOrdered : ℕ → List BuildMap → Type 0
IsOrdered lo [] = Unit {0}
IsOrdered lo (m ∷ ms) =
    (lo ≤ m.offset) × (m.offset + m.length < i64_max) × IsOrdered (m.offset + m.length) ms

pub locate-append :
    (ms ns : List BuildMap) (x : ℕ) → locate (ms ++ ns) x ≡ or_else (locate ms x) (locate ns x)
unfolding locate
locate-append [] ns x = refl
locate-append (m ∷ ms) ns x = ground (arith, locate-append ms ns x)

pub locate_below :
    (lo : ℕ) (ms : List BuildMap) (x : ℕ) → IsOrdered lo ms → x < lo → locate ms x ≡ none
unfolding locate
locate_below lo [] x o h = refl
locate_below lo (m ∷ ms) x o h = ground (arith, locate_below (m.offset + m.length) ms x o.2)

pub IsOrdered-weaken :
    (lo hi : ℕ) (ms : List BuildMap) → lo ≤ hi → IsOrdered hi ms → IsOrdered lo ms
IsOrdered-weaken lo hi [] h o = tt
IsOrdered-weaken lo hi (m ∷ ms) h o = (omega arith, o.1, o.2)
