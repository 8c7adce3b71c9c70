-- ===== src/Limiter/Alone.antt =====
-- Calls that no other one interrupts, key by key.
use aether_agent.Prelude.{
  ℕ, ◌+◌, ◌<◌, ◌≡◌, refl, sym, ap, ◌∙◌, ◌≢◌, Option, some, none, arith, Bool-cases, Option-cases,
  ◌⊎◌, inl, inr, true, false, ◌==◌, ==_iff, ==_ne, if◌then◌else◌, i64_max, add64, add64_small, ltb,
  lt64_small, not,
}
use aether_agent.Limiter.{
  set_at, Shared, Call, acquiring, acquired, get_counter, begin_acquire, count, advance,
  limit_reached,
}

-- Each counter in the map was made, and no two keys have the same.
pub record IsOwn (s : Shared) : Type 0 where
  pub made : (key a : ℕ) → s.connections key ≡ some a → a < s.next
  pub own :
      (key other a : ℕ) → s.connections key ≡ some a → s.connections other ≡ some a → key ≡ other

-- The load and the swap of a call that has begun.
abbrev pub finish : Call × Shared → Call × Shared
finish (c, s) = let (d, t) = advance c s in advance d t

pub count_at : (key a : ℕ) (s : Shared) → s.connections key ≡ some a → count key s ≡ s.counters a
unfolding count
count_at key a s e = rw (e, count)

pub count-none : (key : ℕ) (s : Shared) → s.connections key ≡ none → count key s ≡ 0
unfolding count
count-none key s e = rw (e, count)

-- What changes one counter changes the count of its key only.
pub count-set_at :
    (key other a n : ℕ) (s : Shared)
    → IsOwn s
    → s.connections key ≡ some a
    → other ≢ key
    → count other (record s { counters = set_at s.counters a n }) ≡ count other s
unfolding count
count-set_at key other a n s w e d = elim (Option-cases (s.connections other)) [
  | inl p ↦ rw (p, count)
  | inr (b, p) ↦ rw (p, count) (rw (==_ne a b (λ q. d (w.own other key b p (e ∙ ap some q)))))
]

pub count_at-set_at :
    (key a n : ℕ) (s : Shared)
    → s.connections key ≡ some a
    → count key (record s { counters = set_at s.counters a n }) ≡ n
unfolding count
count_at-set_at key a n s e = rw (e, count) (ground arith)

pub IsOwn-set_at :
    (a n : ℕ) (s : Shared) → IsOwn s → IsOwn (record s { counters = set_at s.counters a n })
IsOwn-set_at a n s w = record { made = w.made; own = w.own }

-- A key's counter is found or made, and nothing else changes.
record Got (key : ℕ) (s : Shared) (a : ℕ) (t : Shared) : Type 0 where
  at_key : t.connections key ≡ some a
  value : t.counters a ≡ count key s
  others : (other : ℕ) → other ≢ key → count other t ≡ count other s
  owned : IsOwn t

-- A counter that is made changes no count.
count-made :
    (other n : ℕ) (connections : ℕ → Option ℕ) (s : Shared)
    → IsOwn s
    → connections other ≡ s.connections other
    → count other
        (record { connections = connections; counters = set_at s.counters s.next 0; next = n })
      ≡ count other s
unfolding count
count-made other n connections s w e = elim (Option-cases (s.connections other)) [
  | inl p ↦ rw (e, p, count)
  | inr (b, p) ↦ rw (e, p, count) (ground (arith, w.made other b p))
]

-- An entry of the map with the new counter.
added :
    (key k a : ℕ) (s : Shared)
    → set_at s.connections key (some s.next) k ≡ some a
    → ((k ≡ key) × (a ≡ s.next)) ⊎ (s.connections k ≡ some a)
added key k a s p = elim (Bool-cases (key == k)) [
  | inl e ↦
      let q : ◌≡◌ {A = Option ℕ} (some s.next) (some a) = rw e at p in
      inl (sym ((==_iff key k).0 e), cc)
  | inr e ↦ inr (rw e at p)
]

IsOwn-added :
    (key : ℕ) (counters : ℕ → ℕ) (s : Shared)
    → IsOwn s
    → IsOwn (record {
      connections = set_at s.connections key (some s.next);
      counters = counters;
      next = s.next + 1;
    })
IsOwn-added key counters s w = record {
  made = λ k a p. elim (added key k a s p) [
    | inl (e, f) ↦ omega arith
    | inr q ↦ omega (arith, w.made k a q)
  ];
  own = λ k j a p q. elim (added key k a s p) [
    | inl (e, f) ↦ elim (added key j a s q) [
      | inl (g, h) ↦ e ∙ sym g
      | inr h ↦ absurd (omega (arith, w.made j a h))
    ]
    | inr e ↦ elim (added key j a s q) [
      | inl (g, h) ↦ absurd (omega (arith, w.made k a e))
      | inr h ↦ w.own k j a e h
    ]
  ];
}

Got-made :
    (key : ℕ) (s : Shared)
    → IsOwn s
    → s.connections key ≡ none
    → Got key s s.next (record {
      connections = set_at s.connections key (some s.next);
      counters = set_at s.counters s.next 0;
      next = s.next + 1;
    })
Got-made key s w e = record {
  at_key = ground arith;
  value = rw (count-none key s e) (ground arith);
  others = λ other d. count-made other (s.next + 1) _ s w (rw (==_ne key other (λ q. d (sym q))));
  owned = IsOwn-added key _ s w;
}

Got-found :
    (key a : ℕ) (s : Shared)
    → IsOwn s
    → s.connections key ≡ some a
    → Got key s a (record s { counters = set_at s.counters s.next 0; next = s.next + 1 })
Got-found key a s w e = record {
  at_key = e;
  value = rw (count_at key a s e) (ground (arith, w.made key a e));
  others = λ other d. count-made other (s.next + 1) s.connections s w refl;
  owned = record { made = λ k b p. omega (arith, w.made k b p); own = w.own };
}

get_counter-Got :
    (key : ℕ) (s : Shared) → IsOwn s → Got key s (get_counter key s).0 (get_counter key s).1
unfolding get_counter
get_counter-Got key s w = elim (Option-cases (s.connections key)) [
  | inl e ↦ rw (e, get_counter) (Got-made key s w e)
  | inr (a, e) ↦ rw (e, get_counter) (Got-found key a s w e)
]

-- The call ended as `result`, the key's count is `n`, and that of every other key is as before.
pub record Ended (key : ℕ) (s : Shared) (result : Call) (n : ℕ) (end : Call × Shared) : Type 0 where
  pub returned : end.0 ≡ result
  pub counted : count key end.1 ≡ n
  pub unchanged : (other : ℕ) → other ≢ key → count other end.1 ≡ count other s
  pub owned : IsOwn end.1

acquire_granted :
    (key l a : ℕ) (s t : Shared)
    → Got key s a t
    → limit_reached l (t.counters a) ≡ false
    → count key s < i64_max
    → Ended key s (acquired (count key s + 1) true) (count key s + 1) (finish (acquiring a l, t))
unfolding advance
acquire_granted key l a s t g e h =
    let n : t.counters a ≡ count key s = g.value in
    let z : (t.counters a == t.counters a) ≡ true = (==_iff _ _).1 refl in
    let v : add64 (t.counters a) 1 ≡ count key s + 1 =
      add64_small (t.counters a) 1 (omega (arith, n)) ∙ omega (arith, n) in
    rw (e, z)
      (record {
        returned = ap (λ (m : ℕ). acquired m true) v;
        counted = count_at-set_at key a _ t g.at_key ∙ v;
        unchanged = λ other d. count-set_at key other a _ t g.owned g.at_key d ∙ g.others other d;
        owned = IsOwn-set_at a _ t g.owned;
      })

acquire_refused :
    (key l a : ℕ) (s t : Shared)
    → Got key s a t
    → limit_reached l (t.counters a) ≡ true
    → Ended key s (acquired (count key s) false) (count key s) (finish (acquiring a l, t))
unfolding advance
acquire_refused key l a s t g e = rw e (record {
  returned = ap (λ (m : ℕ). acquired m false) g.value;
  counted = count_at key a t g.at_key ∙ g.value;
  unchanged = g.others;
  owned = g.owned;
})

-- `TryAcquire` of a call that no other one interrupts, for a count and a limit below 2 ^ 63: below
-- the limit it returns the count plus one and `true`, and the key's count is that; otherwise it
-- returns the count and `false`. No other key's count changes, and the map stays one of a counter
-- per key.
pub try_acquire_alone :
    (key l : ℕ) (s : Shared)
    → IsOwn s
    → l < i64_max
    → count key s < i64_max
    → Ended key s
        (if ltb (count key s) l
          then acquired (count key s + 1) true
          else acquired (count key s) false)
        (if ltb (count key s) l then count key s + 1 else count key s)
        (finish (begin_acquire key l s))
unfolding begin_acquire limit_reached
try_acquire_alone key l s w h k =
    let g = get_counter-Got key s w in
    let t = (get_counter key s).1 in
    let a = (get_counter key s).0 in
    let r : limit_reached l (t.counters a) ≡ not (ltb (count key s) l) =
      rw (g.value, lt64_small l 0 h (omega arith), lt64_small (count key s) l k h) (ground arith) in
    elim (Bool-cases (ltb (count key s) l)) [
      | inl e ↦ rw e (acquire_granted key l a s t g (r ∙ ap not e) k)
      | inr e ↦ rw e (acquire_refused key l a s t g (r ∙ ap not e))
    ]
