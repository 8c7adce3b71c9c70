-- ===== src/Policy/Firewall/Install.antt =====
-- What `Setup` leaves behind.
use mathlib.Core.Path.{◌≡◌, refl, ap, sym, ◌∙◌}
use aether_agent.Prelude.{
  ℕ, ◌⊎◌, inl, inr, ◌≢◌, Bool, true, false, none, some, List, [], ◌∷◌, ◌++◌, append_assoc,
  Bool-cases, if◌then◌else◌, Bytes, itoa, codes, contains,
}
use aether_agent.Policy.Firewall.{
  Rule, accept_loopback, accept_tcp, accept_dns_udp, accept_dns_tcp, drop_all, new_chain,
  flush_chain, append_rule, check_jump, append_jump, Firewall, Action, check, done, ignore, Host,
  add_tunnel_rules, tunnel_ips, add_base_rules, create_chain, add_jump, init,
}
use aether_agent.Policy.Firewall.Chain.{IsIptables, check_ok, check_failed, none_or_some}
use aether_agent.Policy.Firewall.Rebuild.{IsClosed, drop_rest, base_ok, drop_ok}

module _ {K : Type 0} (h : Host K) where
  -- The host is an address, or the resolver gives these for it.
  abbrev pub Resolves : Bytes → List Bytes → Type 0
  Resolves host ips =
      (host ≢ [])
      × (((h.parse_ip host ≡ true) × (ips ≡ host ∷ []))
          ⊎ ((h.parse_ip host ≡ false) × (h.lookup_host host ≡ some ips)))

  -- Which rules `iptables` refuses to append.
  abbrev pub Refuses : (Rule → Bool) → Type 0
  Refuses refused =
      (r : Rule) (k : K)
      → ((refused r ≡ true) × ((h.iptables (append_rule r) k).0 ≢ none))
        ⊎ ((refused r ≡ false) × ((h.iptables (append_rule r) k).0 ≡ none))

-- The rules for the addresses of a tunnel, less those that are refused.
abbrev pub tunnel_rules : (Rule → Bool) → ℕ → List Bytes → List Rule
tunnel_rules refused port [] = []
tunnel_rules refused port (ip ∷ ips) =
    let rest = tunnel_rules refused port ips in
    if refused (accept_tcp (ip ++ codes "/32") (some (itoa port)))
    then rest
    else accept_tcp (ip ++ codes "/32") (some (itoa port)) ∷ rest

module _ {K : Type 0} (h : Host K) (chain : K → List Rule) (jump : K → Bool)
    (laws : IsIptables h chain jump) where
  -- The jump from OUTPUT is as before.
  abbrev Keeps : Action K → Type 0
  Keeps a = (k : K) → jump (a k).1 ≡ jump k

  check-Keeps : (prefix : Bytes) (a b : Action K) → Keeps a → Keeps b → Keeps (check prefix a b)
  check-Keeps prefix a b f g k = elim (check_failed prefix a b k) [
    | inl (n, e) ↦ rw e (f k)
    | inr (n, e) ↦ rw e (g (a k).1 ∙ f k)
  ]

  tunnel-Keeps : (port : ℕ) (ips : List Bytes) → Keeps (add_tunnel_rules h port ips)
  unfolding add_tunnel_rules ignore
  tunnel-Keeps port [] = λ k. refl
  tunnel-Keeps port (ip ∷ ips) = λ k.
      tunnel-Keeps port ips
        (h.iptables (append_rule (accept_tcp (ip ++ codes "/32") (some (itoa port)))) k).1
      ∙ laws.append_keeps _ k

  done-Keeps : Keeps done
  unfolding done
  done-Keeps k = refl

  base-Keeps : (fw : Firewall) → Keeps (add_base_rules h fw)
  unfolding add_base_rules ignore
  base-Keeps fw =
      check-Keeps _ (h.iptables (append_rule accept_loopback)) _ (laws.append_keeps accept_loopback)
        (λ k.
          check-Keeps (codes "add dns udp rule: ") (h.iptables (append_rule accept_dns_udp)) _
            (laws.append_keeps accept_dns_udp)
            (check-Keeps (codes "add dns tcp rule: ") (h.iptables (append_rule accept_dns_tcp)) done
              (laws.append_keeps accept_dns_tcp) done-Keeps)
            (add_tunnel_rules h fw.tunnel_port (tunnel_ips h fw) k).1
          ∙ tunnel-Keeps fw.tunnel_port (tunnel_ips h fw) k)

  drop-Keeps : Keeps (drop_rest h)
  drop-Keeps =
      check-Keeps (codes "add drop rule: ") (h.iptables (append_rule drop_all)) done
        (laws.append_keeps drop_all) done-Keeps

  created : (k : K) → (create_chain h k).0 ≡ none → chain (create_chain h k).1 ≡ []
  unfolding create_chain done
  created k e = elim (none_or_some (h.iptables new_chain k).0) [
    | inl f ↦ rw (create_chain, f) (laws.created k f)
    | inr (m, f) ↦ elim (Bool-cases (contains m (codes "already exists"))) [
      | inl g ↦
          rw (create_chain, f, g)
            (flushed (h.iptables new_chain k).1 (rw (create_chain, f, g) at e))
      | inr g ↦ cc (rw (create_chain, f, g) at e)
    ]
  ]
    where
      flushed :
          (k : K)
          → (check (codes "flush existing chain: ") (h.iptables flush_chain) done k).0 ≡ none
          → chain (check (codes "flush existing chain: ") (h.iptables flush_chain) done k).1 ≡ []
      flushed k e =
          let (f, s) =
            check_ok (codes "flush existing chain: ") (h.iptables flush_chain) done k e in
          rw (s, done) (laws.flushed k f)

  jumps :
      (k : K)
      → (add_jump h k).0 ≡ none
      → (jump (add_jump h k).1 ≡ true) × (chain (add_jump h k).1 ≡ chain k)
  unfolding add_jump done
  jumps k e = elim (none_or_some (h.iptables check_jump k).0) [
    | inl f ↦ rw (add_jump, f) (laws.checked k f, laws.check_keeps k)
    | inr (m, f) ↦
        let (x, y) = appended (h.iptables check_jump k).1 (rw (add_jump, f) at e) in
        rw (add_jump, f) (x, y ∙ laws.check_keeps k)
  ]
    where
      appended :
          (k : K)
          → (check (codes "add output jump: ") (h.iptables append_jump) done k).0 ≡ none
          → (jump (check (codes "add output jump: ") (h.iptables append_jump) done k).1 ≡ true)
            × (chain (check (codes "add output jump: ") (h.iptables append_jump) done k).1
                ≡ chain k)
      appended k e =
          let (f, s) = check_ok (codes "add output jump: ") (h.iptables append_jump) done k e in
          rw (s, done) (laws.jumped k f, laws.jump_keeps k)

  -- What a `Setup` without an error went through: an empty chain, then the rules of the base, and
  -- the one that drops.
  record Installed (fw : Firewall) (k k2 : K) : Type 0 where
    pub empty : chain k2 ≡ []
    pub base : (add_base_rules h fw k2).0 ≡ none
    pub on : jump (init h fw k).1 ≡ true
    pub rules : chain (init h fw k).1 ≡ chain (add_base_rules h fw k2).1 ++ (drop_all ∷ [])

  init-Installed : (fw : Firewall) (k : K) → (init h fw k).0 ≡ none → (k2 : K) × Installed fw k k2
  unfolding init
  init-Installed fw k e =
      let drops = drop_rest h in
      let k1 : K = (create_chain h k).1 in
      let (f, s) =
        check_ok [] (create_chain h) (check [] (add_jump h) (check [] (add_base_rules h fw) drops))
          k e in
      let e1 : (check [] (add_jump h) (check [] (add_base_rules h fw) drops) k1).0 ≡ none =
        ap (λ r. r.0) (sym s) ∙ e in
      let (g, t) = check_ok [] (add_jump h) (check [] (add_base_rules h fw) drops) k1 e1 in
      let k2 : K = (add_jump h k1).1 in
      let (i, u) = check_ok [] (add_base_rules h fw) drops k2 (ap (λ r. r.0) (sym t) ∙ e1) in
      let k3 : K = (add_base_rules h fw k2).1 in
      let e3 : (drops k3).0 ≡ none = ap (λ r. r.0) (sym u) ∙ ap (λ r. r.0) (sym t) ∙ e1 in
      let (on_, same_) = jumps k1 g in
      let q : (init h fw k) ≡ drops k3 = s ∙ t ∙ u in
      (
        k2,
        record {
          empty = same_ ∙ created k f;
          base = i;
          on = ap (λ r. jump r.1) q ∙ drop-Keeps k3 ∙ base-Keeps fw k2 ∙ on_;
          rules = ap (λ r. chain r.1) q ∙ drop_ok h chain jump laws k3 e3;
        },
      )

  -- If `iptables` does what its manual says, and `Setup` returns no error, OUTPUT jumps to the
  -- chain, and the chain accepts only loopback, TCP to the tunnel and name resolution, and drops
  -- the rest.
  init-IsClosed :
      (fw : Firewall) (k : K)
      → (init h fw k).0 ≡ none
      → (jump (init h fw k).1 ≡ true) × IsClosed h fw [] (chain (init h fw k).1)
  init-IsClosed fw k e =
      let (k2, w) = init-Installed fw k e in
      let (ts, a, p) = base_ok h chain jump laws fw k2 w.base in
      (w.on, (ts, [], w.rules ∙ rw (a, w.empty) (simp append_assoc), p, tt))
