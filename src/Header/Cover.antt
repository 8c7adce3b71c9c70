-- ===== src/Header/Cover.antt =====
-- A list of mappings that covers a range of the file without a gap, and what `ValidateMappings`
-- decides about it.
use aether_agent.Prelude.{
  ℕ, ◌+◌, ◌%◌, ◌≤◌, ◌<◌, ◌≡◌, ◌≢◌, ◌∙◌, none, List, [], ◌∷◌, arith, All, i64_max, add64, ◌⊎◌,
}
use Prim.Native.Nat.{◌∣◌}
use native.Mathlib.Nat.{le_refl}
use aether_agent.Header.Mapping.{BuildMap, IsOrdered, locate, locate_below}

-- The mappings stand one behind the other from `lo` to `hi`.
abbrev pub Tiles : ℕ → ℕ → List BuildMap → Type 0
Tiles lo hi [] = lo ≡ hi
Tiles lo hi (m ∷ ms) = (m.offset ≡ lo) × Tiles (lo + m.length) hi ms

abbrev pub EndsBy : ℕ → BuildMap → Type 0
EndsBy hi m = m.offset + m.length ≤ hi

abbrev pub HasLength : ℕ → BuildMap → Type 0
HasLength block_size m = m.length % block_size ≡ 0

-- A mapping of whole blocks, at least one, inside the file.
abbrev pub Fits : ℕ → ℕ → BuildMap → Type 0
Fits size block_size m =
    (m.offset + m.length ≤ size)
    × (block_size ∣ m.offset)
    × (block_size ∣ m.length)
    × (0 < m.length)

pub Tiles-le : (lo hi : ℕ) (ms : List BuildMap) → Tiles lo hi ms → lo ≤ hi
Tiles-le lo hi [] t = omega arith
Tiles-le lo hi (m ∷ ms) t = omega (arith, Tiles-le (lo + m.length) hi ms t.1)

pub Tiles-EndsBy : (lo hi : ℕ) (ms : List BuildMap) → Tiles lo hi ms → All (EndsBy hi) ms
Tiles-EndsBy lo hi [] t = tt
Tiles-EndsBy lo hi (m ∷ ms) t =
    (omega (arith, t.0, Tiles-le (lo + m.length) hi ms t.1), Tiles-EndsBy (lo + m.length) hi ms t.1)

pub Tiles-IsOrdered :
    (lo hi : ℕ) (ms : List BuildMap) → hi < i64_max → Tiles lo hi ms → IsOrdered lo ms
Tiles-IsOrdered lo hi [] h t = tt
Tiles-IsOrdered lo hi (m ∷ ms) h t = (
  omega (arith, t.0),
  omega (arith, t.0, Tiles-le (lo + m.length) hi ms t.1),
  rw t.0 (Tiles-IsOrdered (lo + m.length) hi ms h t.1),
)

pub Tiles-located :
    (lo hi : ℕ) (ms : List BuildMap) (x : ℕ) → Tiles lo hi ms → lo ≤ x → x < hi → locate ms x ≢ none
unfolding locate
Tiles-located lo hi [] x t h k = absurd (omega arith)
Tiles-located lo hi (m ∷ ms) x t h k = ground (arith, Tiles-located (lo + m.length) hi ms x t.1)

located-head :
    (lo hi : ℕ) (m : BuildMap) (ms : List BuildMap)
    → IsOrdered lo (m ∷ ms)
    → EndsBy hi m
    → (lo < hi → locate (m ∷ ms) lo ≢ none)
    → m.offset ≡ lo
located-head lo hi m ms o w h =
    ground (arith, locate_below m.offset (m ∷ ms) lo (le_refl m.offset, o.1, o.2))

pub located-later :
    (m : BuildMap) (ms : List BuildMap) (x : ℕ)
    → m.offset + m.length ≤ x
    → locate (m ∷ ms) x ≡ locate ms x
unfolding locate
located-later m ms x h = ground arith

-- An ordered list that locates every byte of the range, and ends by its end, leaves no gap.
pub located-Tiles :
    (lo hi : ℕ) (ms : List BuildMap)
    → IsOrdered lo ms
    → All (EndsBy hi) ms
    → lo ≤ hi
    → ((x : ℕ) → lo ≤ x → x < hi → locate ms x ≢ none)
    → Tiles lo hi ms
unfolding locate
located-Tiles lo hi [] o w h all = ground (arith, all lo)
located-Tiles lo hi (m ∷ ms) o w h all =
    let e : m.offset ≡ lo = located-head lo hi m ms o w.0 (all lo (le_refl lo)) in
    (
      e,
      located-Tiles (lo + m.length) hi ms (rw (← e) o.2) w.1 (omega arith)
          (λ x p q r. all x (omega arith) q (located-later m ms x (omega arith) ∙ r)),
    )

-- Neighbours of one build, but for the nil build, are neighbours in its data file too.
abbrev pub Joins : BuildMap → BuildMap → Type 0
Joins m n =
    n.build_id ≡ m.build_id
    → (m.build_id ≡ 0) ⊎ (n.build_storage_offset ≡ add64 m.build_storage_offset m.length)

abbrev pub Joined : BuildMap → List BuildMap → Type 0
Joined m [] = Unit {0}
Joined m (n ∷ ns) = Joins m n × Joined n ns

abbrev pub IsJoinable : List BuildMap → Type 0
IsJoinable [] = Unit {0}
IsJoinable (m ∷ ms) = Joined m ms
