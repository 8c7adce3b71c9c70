-- ===== src/Limiter/Release.antt =====
-- `Release` and `Remove` of a key while no other call interrupts.
use aether_agent.Prelude.{
  ◌+◌, false, ltb, if◌then◌else◌, ℕ, ◌-◌, ◌<◌, ◌≡◌, refl, sym, ap, ◌∙◌, ◌≢◌, some, none, arith,
  Bool-cases, Option-cases, inl, inr, true, ◌==◌, ==_iff, ==_ne, i64_max, sub64_small,
  is_positive64,
}
use aether_agent.Limiter.{
  acquired, begin_acquire, set_at, Shared, releasing, released, begin_release, remove, count,
  advance,
}
use aether_agent.Limiter.Alone.{
  IsOwn, finish, count_at, count-none, count-set_at, count_at-set_at, IsOwn-set_at, Ended,
  try_acquire_alone,
}

release_at :
    (key a : ℕ) (s : Shared)
    → IsOwn s
    → s.connections key ≡ some a
    → s.counters a < i64_max
    → Ended key s released (s.counters a - 1) (finish (releasing a, s))
unfolding advance
release_at key a s w e h = elim (Bool-cases (is_positive64 (s.counters a))) [
  | inl p ↦
      let z : (s.counters a == s.counters a) ≡ true = (==_iff _ _).1 refl in
      let q : 0 < s.counters a = unfold is_positive64 in ground arith in
      rw (p, z)
        (record {
          returned = refl;
          counted =
              count_at-set_at key a _ s e
              ∙ sub64_small (s.counters a) 1 (omega arith) (omega arith);
          unchanged = λ other d. count-set_at key other a _ s w e d;
          owned = IsOwn-set_at a _ s w;
        })
  | inr p ↦
      let q : s.counters a ≡ 0 = unfold is_positive64 in ground arith in
      rw p (record {
        returned = refl;
        counted = count_at key a s e ∙ omega (arith, q);
        unchanged = λ other d. refl;
        owned = w;
      })
]

-- `Release` of a call that no other one interrupts, for a count below 2 ^ 63, takes one off the
-- count of the key, which stays 0 if it was 0. No other key's count changes, and the map stays one
-- of a counter per key.
release_alone :
    (key : ℕ) (s : Shared)
    → IsOwn s
    → count key s < i64_max
    → Ended key s released (count key s - 1) (finish (begin_release key s, s))
unfolding begin_release advance
release_alone key s w h = elim (Option-cases (s.connections key)) [
  | inl e ↦
      rw (e, begin_release)
        (record {
          returned = refl;
          counted = count-none key s e ∙ ap (λ (n : ℕ). n - 1) (sym (count-none key s e));
          unchanged = λ other d. refl;
          owned = w;
        })
  | inr (a, e) ↦
      let q : count key s ≡ s.counters a = count_at key a s e in
      rw (q, e, begin_release) (release_at key a s w e (omega (arith, q)))
]

kept :
    (key k a : ℕ) (s : Shared) → set_at s.connections key none k ≡ some a → s.connections k ≡ some a
kept key k a s p = elim (Bool-cases (key == k)) [ inl e ↦ cc (rw e at p) | inr e ↦ rw e at p ]

-- After `Remove` the key counts no connection, and every other key as many as before, and the map
-- stays one of a counter per key.
remove_lem :
    (key : ℕ) (s : Shared)
    → IsOwn s
    → (count key (remove key s) ≡ 0)
      × ((other : ℕ) → other ≢ key → count other (remove key s) ≡ count other s)
      × IsOwn (remove key s)
unfolding remove
remove_lem key s w = (
  count-none key (remove key s) (rw ((==_iff key key).1 refl)),
  λ other d. unfold count in rw (==_ne key other (λ q. d (sym q)), count),
  record {
    made = λ k a p. w.made k a (kept key k a s p);
    own = λ k j a p q. w.own k j a (kept key k a s p) (kept key j a s q);
  },
)

-- Calls that no other one interrupts, for a count and a limit below 2 ^ 63. `TryAcquire` below the
-- limit returns the count plus one and `true`, and the key's count is that; otherwise it returns
-- the count and `false`. `Release` takes one off the count, which stays 0 if it was 0. `Remove`
-- makes it 0. No other key's count changes, and the map stays one of a counter per key.
pub calls_alone :
    (key l : ℕ) (s : Shared)
    → IsOwn s
    → l < i64_max
    → count key s < i64_max
    → Ended key s
        (if ltb (count key s) l
          then acquired (count key s + 1) true
          else acquired (count key s) false)
        (if ltb (count key s) l then count key s + 1 else count key s)
        (finish (begin_acquire key l s))
      × Ended key s released (count key s - 1) (finish (begin_release key s, s))
      × ((count key (remove key s) ≡ 0)
          × ((other : ℕ) → other ≢ key → count other (remove key s) ≡ count other s)
          × IsOwn (remove key s))
calls_alone key l s w h k =
    (try_acquire_alone key l s w h k, release_alone key s w k, remove_lem key s w)
