-- ===== src/Header/Merge/Ready.antt =====
-- When the next mapping that `MergeMappings` appends may stand behind the last one: neighbours of
-- one build in its output are neighbours in that build's data file, if they were in its inputs.
use aether_agent.Prelude.{
  ℕ, ◌+◌, ◌-◌, ◌≤◌, ◌≡◌, ap, sym, ◌∙◌, ◌⊎◌, inl, inr, List, [], ◌∷◌, arith, All, add64, add64_assoc,
}
use aether_agent.Header.Mapping.{BuildMap, IsOrdered}
use aether_agent.Header.Cover.{Joins, Joined, IsJoinable}
use aether_agent.Header.Merge.Round.{from}

pub Joined-IsJoinable : (m : BuildMap) (ms : List BuildMap) → Joined m ms → IsJoinable ms
Joined-IsJoinable m [] j = tt
Joined-IsJoinable m (n ∷ ns) j = j.1

-- The next diff may follow `prev`.
abbrev pub ToDiff : BuildMap → List BuildMap → Type 0
ToDiff prev [] = Unit {0}
ToDiff prev (d ∷ ds) = Joins prev d

-- The next base may follow `prev`, or a diff comes first.
abbrev pub ToBase : BuildMap → List BuildMap → List BuildMap → Type 0
ToBase prev [] diff = Unit {0}
ToBase prev (b ∷ bs) [] = Joins prev b
ToBase prev (b ∷ bs) (d ∷ ds) = Joins prev b ⊎ (d.offset ≤ b.offset)

pub record Ready (prev : BuildMap) (base diff : List BuildMap) : Type 0 where
  pub chain_base : IsJoinable base
  pub chain_diff : IsJoinable diff
  pub to_diff : ToDiff prev diff
  pub to_base : ToBase prev base diff

pub ToDiff-chain : (m : BuildMap) (ds : List BuildMap) → Joined m ds → ToDiff m ds
ToDiff-chain m [] j = tt
ToDiff-chain m (d ∷ ds) j = j.0

pub ToBase-chain : (m : BuildMap) (bs ds : List BuildMap) → Joined m bs → ToBase m bs ds
ToBase-chain m [] ds j = tt
ToBase-chain m (b ∷ bs) [] j = j.0
ToBase-chain m (b ∷ bs) (d ∷ ds) j = inl j.0

pub ToBase-blocked :
    (m : BuildMap) (lo : ℕ) (bs : List BuildMap) (d : BuildMap) (ds : List BuildMap)
    → IsOrdered lo bs
    → d.offset ≤ lo
    → ToBase m bs (d ∷ ds)
ToBase-blocked m lo [] d ds o h = tt
ToBase-blocked m lo (b ∷ bs) d ds o h = inr (omega arith)

-- The part after a split joins what the whole mapping joined.
pub from-Joined :
    (m : BuildMap) (lo : ℕ) (ms : List BuildMap)
    → m.offset ≤ lo
    → lo ≤ m.offset + m.length
    → Joined m ms
    → Joined (from m lo) ms
from-Joined m lo [] h k j = tt
from-Joined m lo (n ∷ ns) h k (j, js) = (
  λ e. elim (j e) [
    | inl z ↦ inl z
    | inr s ↦ inr (
        s
        ∙ ap (add64 m.build_storage_offset) (omega arith)
        ∙ sym (add64_assoc m.build_storage_offset (lo - m.offset) (m.offset + m.length - lo)))
  ],
  js,
)

-- Two lists whose builds have none in common but the nil build.
module _ (Pb Pd : ℕ → Type 0) (apart : (m n : ℕ) → Pb m → Pd n → m ≡ n → m ≡ 0) where
  pub base-Joins-diff : (b d : BuildMap) → Pb b.build_id → Pd d.build_id → Joins b d
  base-Joins-diff b d p q e = inl (apart b.build_id d.build_id p q (sym e))

  pub diff-Joins-base : (b d : BuildMap) → Pb b.build_id → Pd d.build_id → Joins d b
  diff-Joins-base b d p q e = inl (sym e ∙ apart b.build_id d.build_id p q e)

  pub ToBase-apart :
      (d : BuildMap) (bs ds : List BuildMap)
      → Pd d.build_id
      → All (λ b. Pb b.build_id) bs
      → ToBase d bs ds
  ToBase-apart d [] ds q p = tt
  ToBase-apart d (b ∷ bs) [] q p = diff-Joins-base b d p.0 q
  ToBase-apart d (b ∷ bs) (e ∷ ds) q p = inl (diff-Joins-base b d p.0 q)

  pub ToDiff-apart :
      (b : BuildMap) (ds : List BuildMap)
      → Pb b.build_id
      → All (λ d. Pd d.build_id) ds
      → ToDiff b ds
  ToDiff-apart b [] p q = tt
  ToDiff-apart b (d ∷ ds) p q = base-Joins-diff b d p q.0
