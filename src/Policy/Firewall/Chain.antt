-- ===== src/Policy/Firewall/Chain.antt =====
-- The rules that each part of a rebuild appends.
use mathlib.Core.Path.{◌≡◌, refl, sym, ◌∙◌}
use aether_agent.Prelude.{
  ℕ, ◌⊎◌, inl, inr, ◌≢◌, Bool, true, Option, none, some, List, [], ◌∷◌, ◌++◌, All, All-append,
  append_nil, append_assoc, Any, Bool-cases, Bytes, itoa, codes, same, same_iff,
}
use aether_agent.Policy.Manifest.{NetworkEntry}
use aether_agent.Policy.Firewall.{
  Rule, accept_tcp, new_chain, flush_chain, append_rule, check_jump, append_jump, Firewall, Action,
  check, done, ignore, Host, resolve_host, split_host_port, port_of, add_tunnel_rules, tunnel_ips,
  add_ip_rules, add_entry_rules, add_entries,
}

-- The command does what its manual says: it changes the chain and the jump when it succeeds only.
pub record IsIptables {K : Type 0} (h : Host K) (chain : K → List Rule) (jump : K → Bool)
    : Type 0 where
  pub appended :
      (r : Rule) (k : K)
      → (h.iptables (append_rule r) k).0 ≡ none
      → chain (h.iptables (append_rule r) k).1 ≡ chain k ++ (r ∷ [])
  pub not_appended :
      (r : Rule) (k : K)
      → (h.iptables (append_rule r) k).0 ≢ none
      → chain (h.iptables (append_rule r) k).1 ≡ chain k
  pub flushed :
      (k : K) → (h.iptables flush_chain k).0 ≡ none → chain (h.iptables flush_chain k).1 ≡ []
  pub not_flushed :
      (k : K) → (h.iptables flush_chain k).0 ≢ none → chain (h.iptables flush_chain k).1 ≡ chain k
  pub created : (k : K) → (h.iptables new_chain k).0 ≡ none → chain (h.iptables new_chain k).1 ≡ []
  pub checked :
      (k : K) → (h.iptables check_jump k).0 ≡ none → jump (h.iptables check_jump k).1 ≡ true
  pub jumped :
      (k : K) → (h.iptables append_jump k).0 ≡ none → jump (h.iptables append_jump k).1 ≡ true
  pub check_keeps : (k : K) → chain (h.iptables check_jump k).1 ≡ chain k
  pub jump_keeps : (k : K) → chain (h.iptables append_jump k).1 ≡ chain k
  pub append_keeps : (r : Rule) (k : K) → jump (h.iptables (append_rule r) k).1 ≡ jump k

pub none_or_some : {A : Type 0} (o : Option A) → (o ≡ none) ⊎ ((a : A) × (o ≡ some a))
none_or_some none = inl refl
none_or_some (some a) = inr (a, refl)

module _ {K : Type 0} where
  -- A checked call that lets the whole succeed succeeds itself.
  pub check_ok :
      (prefix : Bytes) (first rest : Action K) (k : K)
      → (check prefix first rest k).0 ≡ none
      → ((first k).0 ≡ none) × (check prefix first rest k ≡ rest (first k).1)
  unfolding check
  check_ok prefix first rest k h = elim (none_or_some (first k).0) [
    | inl e ↦ (e, rw (check, e))
    | inr (a, e) ↦ cc (rw (check, e) at h)
  ]

  -- A failure is the checked call's, or that of the rest after it.
  pub check_failed :
      (prefix : Bytes) (first rest : Action K) (k : K)
      → (((first k).0 ≢ none) × ((check prefix first rest k).1 ≡ (first k).1))
        ⊎ (((first k).0 ≡ none) × (check prefix first rest k ≡ rest (first k).1))
  unfolding check
  check_failed prefix first rest k = elim (none_or_some (first k).0) [
    | inl e ↦ inr (e, rw (check, e))
    | inr (a, e) ↦ inl (λ f. cc (e, f), rw (check, e))
  ]

module _ {K : Type 0} (chain : K → List Rule) where
  -- The chain is longer by rules with the property, and no others.
  abbrev pub Longer : (Rule → Type 0) → K → K → Type 0
  Longer P k k' = (rs : List Rule) × (chain k' ≡ chain k ++ rs) × All P rs

  abbrev pub Lengthens : (Rule → Type 0) → Action K → Type 0
  Lengthens P a = (k : K) → Longer P k (a k).1

  pub Longer-same : (P : Rule → Type 0) (k k' : K) → chain k' ≡ chain k → Longer P k k'
  Longer-same P k k' e = ([], e ∙ sym (append_nil (chain k)), tt)

  pub Longer-trans : (P : Rule → Type 0) (a b c : K) → Longer P a b → Longer P b c → Longer P a c
  Longer-trans P a b c (rs, e, p) (ss, f, q) =
      (rs ++ ss, f ∙ rw e (append_assoc (chain a) rs ss), All-append P rs ss p q)

  pub ignore-Lengthens :
      (P : Rule → Type 0) (a b : Action K)
      → Lengthens P a
      → Lengthens P b
      → Lengthens P (ignore a b)
  unfolding ignore
  ignore-Lengthens P a b f g k = Longer-trans P k (a k).1 (b (a k).1).1 (f k) (g (a k).1)

  pub check-Lengthens :
      (P : Rule → Type 0) (prefix : Bytes) (a b : Action K)
      → Lengthens P a
      → Lengthens P b
      → Lengthens P (check prefix a b)
  check-Lengthens P prefix a b f g k = elim (check_failed prefix a b k) [
    | inl (n, e) ↦ rw e (f k)
    | inr (n, e) ↦ rw e (Longer-trans P k (a k).1 (b (a k).1).1 (f k) (g (a k).1))
  ]

  pub done-Lengthens : (P : Rule → Type 0) → Lengthens P done
  unfolding done
  done-Lengthens P k = Longer-same P k k refl

module _ {K : Type 0} (h : Host K) where
  -- A rule that accepts one of the addresses.
  abbrev pub ForAddress : Option Bytes → List Bytes → Rule → Type 0
  ForAddress port ips r = Any (λ ip. r ≡ accept_tcp (ip ++ codes "/32") port) ips

  abbrev pub ForTunnel : Firewall → Rule → Type 0
  ForTunnel fw = ForAddress (some (itoa fw.tunnel_port)) (tunnel_ips h fw)

  -- A rule that accepts what an entry names: its addresses, or its host if that has none.
  abbrev pub ForEntry : NetworkEntry → Rule → Type 0
  ForEntry e r =
      let (host, port) = split_host_port h e.pattern_ in
      (host ≢ [])
      × (ForAddress (port_of h port) (resolve_host h host) r
          ⊎ ((resolve_host h host ≡ []) × (r ≡ accept_tcp host (port_of h port))))

  abbrev pub ForManifest : List NetworkEntry → Rule → Type 0
  ForManifest entries r = Any (λ e. ForEntry e r) entries

module _ {K : Type 0} (h : Host K) (chain : K → List Rule) (jump : K → Bool)
    (laws : IsIptables h chain jump) where
  pub append-Lengthens :
      (P : Rule → Type 0) (r : Rule) → P r → Lengthens chain P (h.iptables (append_rule r))
  append-Lengthens P r p k = elim (none_or_some (h.iptables (append_rule r) k).0) [
    | inl e ↦ (r ∷ [], laws.appended r k e, (p, tt))
    | inr (a, e) ↦
        Longer-same chain P k (h.iptables (append_rule r) k).1
          (laws.not_appended r k (λ f. cc (e, f)))
  ]

  pub tunnel-Lengthens :
      (P : Rule → Type 0) (port : ℕ) (ips : List Bytes)
      → ((r : Rule) → ForAddress h (some (itoa port)) ips r → P r)
      → Lengthens chain P (add_tunnel_rules h port ips)
  unfolding add_tunnel_rules
  tunnel-Lengthens P port [] q = λ k. Longer-same chain P k k refl
  tunnel-Lengthens P port (ip ∷ ips) q =
      ignore-Lengthens chain P
        (h.iptables (append_rule (accept_tcp (ip ++ codes "/32") (some (itoa port)))))
        (add_tunnel_rules h port ips)
        (append-Lengthens P (accept_tcp (ip ++ codes "/32") (some (itoa port))) (q _ (inl refl)))
        (tunnel-Lengthens P port ips (λ r u. q r (inr u)))

  ips-Lengthens :
      (P : Rule → Type 0) (port : Option Bytes) (ips : List Bytes)
      → ((r : Rule) → ForAddress h port ips r → P r)
      → Lengthens chain P (add_ip_rules h port ips)
  unfolding add_ip_rules
  ips-Lengthens P port [] q = done-Lengthens chain P
  ips-Lengthens P port (ip ∷ ips) q =
      check-Lengthens chain P [] (h.iptables (append_rule (accept_tcp (ip ++ codes "/32") port)))
        (add_ip_rules h port ips)
        (append-Lengthens P (accept_tcp (ip ++ codes "/32") port) (q _ (inl refl)))
        (ips-Lengthens P port ips (λ r u. q r (inr u)))

  entry-Lengthens :
      (P : Rule → Type 0) (e : NetworkEntry)
      → ((r : Rule) → ForEntry h e r → P r)
      → Lengthens chain P (add_entry_rules h e)
  unfolding add_entry_rules
  entry-Lengthens P e q k = elim (Bool-cases (same (split_host_port h e.pattern_).0 [])) [
    | inl f ↦ rw (add_entry_rules, f) (Longer-same chain P k k refl)
    | inr f ↦
        rw (add_entry_rules, f)
          (resolved (resolve_host h (split_host_port h e.pattern_).0) refl (λ g.
            let t : same (split_host_port h e.pattern_).0 [] ≡ true = (same_iff _ _).1 g in
            cc (t, f)))
  ]
    where
      resolved :
          (ips : List Bytes)
          → resolve_host h (split_host_port h e.pattern_).0 ≡ ips
          → (split_host_port h e.pattern_).0 ≢ []
          → Longer chain P k
              (elim ips as (λ i. Option Bytes × K) [
                | [] ↦
                    h.iptables
                      (append_rule (
                        accept_tcp
                          (split_host_port h e.pattern_).0
                          (port_of h (split_host_port h e.pattern_).1)))
                      k
                | ip ∷ more ↦
                    add_ip_rules h (port_of h (split_host_port h e.pattern_).1) (ip ∷ more) k
              ]).1
      resolved [] g n = append-Lengthens P _ (q _ (n, inr (g, refl))) k
      resolved (ip ∷ more) g n = ips-Lengthens P _ (ip ∷ more) (λ r u. q r (n, inl (rw g u))) k

  pub entries-Lengthens :
      (P : Rule → Type 0) (es : List NetworkEntry)
      → ((r : Rule) → ForManifest h es r → P r)
      → Lengthens chain P (add_entries h es)
  unfolding add_entries
  entries-Lengthens P [] q = done-Lengthens chain P
  entries-Lengthens P (e ∷ es) q =
      ignore-Lengthens chain P (add_entry_rules h e) (add_entries h es)
        (entry-Lengthens P e (λ r u. q r (inl u))) (entries-Lengthens P es (λ r u. q r (inr u)))
