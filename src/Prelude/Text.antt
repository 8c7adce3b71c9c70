-- ===== src/Prelude/Text.antt =====
-- Go strings as lists of bytes, with the functions of package strings that the code calls.
use mathlib.Core.Path.{◌≡◌, refl, ap, sym, ◌∙◌}
use mathlib.Core.Logic.{◌↔◌, inl, inr}
use mathlib.Core.Bool.{Bool, true, false, ◌&&◌, ◌||◌}
use mathlib.Core.Option.{Option, some, none}
use mathlib.Core.List.{List, [], ◌∷◌, ◌++◌}
use native.Mathlib.Omega.{arith}
use Prim.Native.Nat.{ℕ, zero, suc, ◌+◌, ◌-◌}
use Prim.Native.Char.{code}
use Prim.Native.String.{String}
use aether_agent.Prelude.Lists.{length, take, drop, length-append}
use aether_agent.Prelude.Tests.{leb, ◌==◌, ==_iff, if◌then◌else◌, Bool-cases, le→leb}

abbrev pub Bytes : Type 0
Bytes = List ℕ

-- The bytes of an ASCII literal.
abbrev pub codes : String → Bytes
codes String.[] = []
codes (String.◌∷◌ c s) = code c ∷ codes s

unfoldable pub same : Bytes → Bytes → Bool
same [] [] = true
same [] (b ∷ bs) = false
same (a ∷ as_) [] = false
same (a ∷ as_) (b ∷ bs) = a == b && same as_ bs

unfoldable pub has_prefix : Bytes → Bytes → Bool
has_prefix s [] = true
has_prefix [] (p ∷ ps) = false
has_prefix (b ∷ s) (p ∷ ps) = b == p && has_prefix s ps

unfoldable pub has_suffix : Bytes → Bytes → Bool
unfolding same
has_suffix s p = leb (length p) (length s) && same (drop (length s - length p) s) p

unfoldable pub trim_suffix : Bytes → Bytes → Bytes
trim_suffix s p = if has_suffix s p then take (length s - length p) s else s

unfoldable pub contains_byte : Bytes → ℕ → Bool
contains_byte [] c = false
contains_byte (b ∷ s) c = b == c || contains_byte s c

unfoldable pub contains : Bytes → Bytes → Bool
unfolding has_prefix
contains [] t = has_prefix [] t
contains (b ∷ s) t = has_prefix (b ∷ s) t || contains s t

-- `strings.Cut` at a single byte: what stands before its first place, and behind it if it is there.
unfoldable pub cut : Bytes → ℕ → Bytes × Option Bytes
cut [] c = ([], none)
cut (b ∷ s) c =
    let (before, after) = cut s c in if b == c then ([], some s) else (b ∷ before, after)

abbrev head : ℕ → Bytes → ℕ
head d [] = d
head d (b ∷ s) = b

abbrev tail : Bytes → Bytes
tail [] = []
tail (b ∷ s) = s

pub same_iff : (s t : Bytes) → (same s t ≡ true) ↔ (s ≡ t)
unfolding same
same_iff [] [] = (λ e. refl, λ e. refl)
same_iff [] (b ∷ bs) = (λ e. cc, λ e. cc)
same_iff (a ∷ as_) [] = (λ e. cc, λ e. cc)
same_iff (a ∷ as_) (b ∷ bs) = elim (Bool-cases (a == b)) [
  | inl e ↦
      let q : a ≡ b = (==_iff a b).0 e in
      (
        λ h. let k : same as_ bs ≡ true = rw e at h in cc (q, (same_iff as_ bs).0 k),
        λ h. rw e ((same_iff as_ bs).1 (ap tail h)),
      )
  | inr e ↦ (λ h. cc (rw e at h), λ h. absurd (ground (arith, ap (head 0) h)))
]

pub has_prefix-append : (p rest : Bytes) → has_prefix (p ++ rest) p ≡ true
unfolding has_prefix
has_prefix-append [] rest = refl
has_prefix-append (b ∷ p) rest = rw ((==_iff b b).1 refl) (has_prefix-append p rest)

pub has_prefix_split : (s p : Bytes) → has_prefix s p ≡ true → (rest : Bytes) × (s ≡ p ++ rest)
unfolding has_prefix
has_prefix_split s [] h = (s, refl)
has_prefix_split [] (p ∷ ps) h = cc
has_prefix_split (b ∷ s) (p ∷ ps) h = elim (Bool-cases (b == p)) [
  | inl e ↦
      let k : has_prefix s ps ≡ true = rw e at h in
      let q : b ≡ p = (==_iff b p).0 e in
      let (rest, r) = has_prefix_split s ps k in (rest, cc (q, r))
  | inr e ↦ cc (rw e at h)
]

take-append : (s p : Bytes) → take (length s) (s ++ p) ≡ s
take-append [] p = refl
take-append (b ∷ s) p = ap (λ t. b ∷ t) (take-append s p)

pub drop-append : (s p : Bytes) → drop (length s) (s ++ p) ≡ p
drop-append [] p = refl
drop-append (b ∷ s) p = drop-append s p

pub take-drop : (n : ℕ) (s : Bytes) → take n s ++ drop n s ≡ s
take-drop zero s = refl
take-drop (suc n) [] = refl
take-drop (suc n) (b ∷ s) = ap (λ t. b ∷ t) (take-drop n s)

pub has_suffix-append : (s p : Bytes) → has_suffix (s ++ p) p ≡ true
unfolding has_suffix
has_suffix-append s p =
    let l : length (s ++ p) ≡ length s + length p = length-append s p in
    let d : length (s ++ p) - length p ≡ length s = omega (arith, l) in
    let e : leb (length p) (length (s ++ p)) ≡ true =
      le→leb (length p) (length (s ++ p)) (omega (arith, l)) in
    rw (e, d, drop-append s p) ((same_iff p p).1 refl)

pub trim_suffix-append : (s p : Bytes) → trim_suffix (s ++ p) p ≡ s
unfolding trim_suffix
trim_suffix-append s p =
    let l : length (s ++ p) ≡ length s + length p = length-append s p in
    let d : length (s ++ p) - length p ≡ length s = omega (arith, l) in
    rw (has_suffix-append s p, d) (take-append s p)

pub has_suffix_split : (s p : Bytes) → has_suffix s p ≡ true → s ≡ trim_suffix s p ++ p
unfolding has_suffix trim_suffix
has_suffix_split s p h = elim (Bool-cases (leb (length p) (length s))) [
  | inl e ↦
      let k : same (drop (length s - length p) s) p ≡ true = rw e at h in
      rw (e, k)
        (sym (take-drop (length s - length p) s)
          ∙ ap (λ t. take (length s - length p) s ++ t) ((same_iff _ _).0 k))
  | inr e ↦ cc (rw e at h)
]
