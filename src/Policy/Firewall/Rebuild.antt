-- ===== src/Policy/Firewall/Rebuild.antt =====
-- What the chain holds when `Setup` and `Apply` return.
use mathlib.Core.Path.{◌≡◌, ap, sym, ◌∙◌}
use aether_agent.Prelude.{
  ◌⊎◌, inl, inr, ◌≢◌, Bool, Option, none, List, [], ◌∷◌, ◌++◌, All, append_assoc, Any, Bytes, codes,
}
use aether_agent.Policy.Manifest.{NetworkEntry}
use aether_agent.Policy.Firewall.{
  Rule, accept_loopback, accept_tcp, accept_dns_udp, accept_dns_tcp, drop_all, flush_chain,
  append_rule, Firewall, Action, check, done, ignore, Host, add_tunnel_rules, tunnel_ips,
  add_base_rules, add_entries, apply,
}
use aether_agent.Policy.Firewall.Chain.{
  IsIptables, check_ok, check_failed, Longer, Lengthens, ignore-Lengthens, check-Lengthens,
  done-Lengthens, append-Lengthens, tunnel-Lengthens, entries-Lengthens, Longer-trans, ForTunnel,
  ForManifest,
}

address_accepts :
    (port : Option Bytes) (ips : List Bytes) (r : Rule)
    → Any (λ ip. r ≡ accept_tcp (ip ++ codes "/32") port) ips
    → r ≢ drop_all
address_accepts port [] r u = absurd u
address_accepts port (ip ∷ ips) r (inl e) = λ f. cc (e, f)
address_accepts port (ip ∷ ips) r (inr u) = address_accepts port ips r u

module _ {K : Type 0} (h : Host K) where
  -- The chain accepts loopback, the tunnel and name resolution, then what the entries name, and
  -- drops the rest.
  abbrev pub IsClosed : Firewall → List NetworkEntry → List Rule → Type 0
  IsClosed fw entries rules =
      (tunnel : List Rule) × (allowed : List Rule) × (rules
        ≡ (accept_loopback ∷ tunnel)
          ++ (accept_dns_udp ∷ accept_dns_tcp ∷ (allowed ++ (drop_all ∷ []))))
      × All (ForTunnel h fw) tunnel
      × All (ForManifest h entries) allowed

  abbrev pub add : Rule → Action K
  add r = h.iptables (append_rule r)

  abbrev pub drop_rest : Action K
  drop_rest = check (codes "add drop rule: ") (add drop_all) done

  abbrev pub dns_rest : Action K
  dns_rest =
      check (codes "add dns udp rule: ") (add accept_dns_udp)
        (check (codes "add dns tcp rule: ") (add accept_dns_tcp) done)

module _ {K : Type 0} (h : Host K) (chain : K → List Rule) (jump : K → Bool)
    (laws : IsIptables h chain jump) where
  pub dns_ok :
      (k : K)
      → (dns_rest h k).0 ≡ none
      → chain (dns_rest h k).1 ≡ chain k ++ (accept_dns_udp ∷ accept_dns_tcp ∷ [])
  unfolding done
  dns_ok k e =
      let (f, s) =
        check_ok _ (add h accept_dns_udp)
          (check (codes "add dns tcp rule: ") (add h accept_dns_tcp) done) k e in
      let k1 : K = (add h accept_dns_udp k).1 in
      let (g, t) = check_ok _ (add h accept_dns_tcp) done k1 (rw s at e) in
      ap (λ r. chain r.1) (s ∙ t)
      ∙ laws.appended accept_dns_tcp k1 g
      ∙ rw (laws.appended accept_dns_udp k f)
          (append_assoc (chain k) (accept_dns_udp ∷ []) (accept_dns_tcp ∷ []))

  pub drop_ok :
      (k : K) → (drop_rest h k).0 ≡ none → chain (drop_rest h k).1 ≡ chain k ++ (drop_all ∷ [])
  unfolding done
  drop_ok k e =
      let (f, s) = check_ok _ (add h drop_all) done k e in
      ap (λ r. chain r.1) s ∙ laws.appended drop_all k f

  pub base_ok :
      (fw : Firewall) (k : K)
      → (add_base_rules h fw k).0 ≡ none
      → (tunnel : List Rule) × (chain (add_base_rules h fw k).1
          ≡ chain k ++ ((accept_loopback ∷ tunnel) ++ (accept_dns_udp ∷ accept_dns_tcp ∷ [])))
        × All (ForTunnel h fw) tunnel
  unfolding add_base_rules ignore
  base_ok fw k e =
      let (f, s) =
        check_ok _ (add h accept_loopback)
          (ignore (add_tunnel_rules h fw.tunnel_port (tunnel_ips h fw)) (dns_rest h)) k e in
      let k1 : K = (add h accept_loopback k).1 in
      let k2 : K = (add_tunnel_rules h fw.tunnel_port (tunnel_ips h fw) k1).1 in
      let (ts, a, p) =
        tunnel-Lengthens h chain jump laws (ForTunnel h fw) fw.tunnel_port (tunnel_ips h fw)
          (λ r u. u) k1 in
      (
        ts,
        ap (λ r. chain r.1) s
            ∙ dns_ok k2 (ap (λ r. r.0) (sym s) ∙ e)
            ∙ rw (a, laws.appended accept_loopback k f) (simp append_assoc),
        p,
      )

  finish_ok :
      (fw : Firewall) (entries : List NetworkEntry) (k : K)
      → chain k ≡ []
      → (check [] (add_base_rules h fw) (ignore (add_entries h entries) (drop_rest h)) k).0 ≡ none
      → IsClosed h fw entries (
          chain (check [] (add_base_rules h fw) (ignore (add_entries h entries) (drop_rest h)) k).1)
  unfolding ignore
  finish_ok fw entries k n e =
      let (f, s) =
        check_ok [] (add_base_rules h fw) (ignore (add_entries h entries) (drop_rest h)) k e in
      let k1 : K = (add_base_rules h fw k).1 in
      let k2 : K = (add_entries h entries k1).1 in
      let (ts, a, p) = base_ok fw k f in
      let (es, b, q) =
        entries-Lengthens h chain jump laws (ForManifest h entries) entries (λ r u. u) k1 in
      (
        ts,
        es,
        ap (λ r. chain r.1) s
            ∙ drop_ok k2 (ap (λ r. r.0) (sym s) ∙ e)
            ∙ rw (b, a, n) (simp append_assoc),
        p,
        q,
      )

  -- If `iptables` does what its manual says, and `Apply` returns no error, the chain accepts
  -- loopback, then only TCP to addresses of the tunnel's host at its port, then name resolution,
  -- then only what an entry's host resolves to (or the host itself where it resolves to nothing),
  -- and last drops everything.
  pub apply-IsClosed :
      (fw : Firewall) (entries : List NetworkEntry) (k : K)
      → (apply h fw entries k).0 ≡ none
      → IsClosed h fw entries (chain (apply h fw entries k).1)
  unfolding apply
  apply-IsClosed fw entries k e =
      let (f, s) =
        check_ok _ (h.iptables flush_chain)
          (check [] (add_base_rules h fw) (ignore (add_entries h entries) (drop_rest h))) k e in
      let k1 : K = (h.iptables flush_chain k).1 in
      rw s (finish_ok fw entries k1 (laws.flushed k f) (ap (λ r. r.0) (sym s) ∙ e))

  -- A rule that is not the one that drops.
  abbrev IsAccept : Rule → Type 0
  IsAccept r = r ≢ drop_all

  entries-IsAccept : (es : List NetworkEntry) (r : Rule) → ForManifest h es r → IsAccept r
  entries-IsAccept [] r u = absurd u
  entries-IsAccept (e ∷ es) r (inl (n, inl u)) = address_accepts _ _ r u
  entries-IsAccept (e ∷ es) r (inl (n, inr (g, u))) = λ f. cc (u, f)
  entries-IsAccept (e ∷ es) r (inr u) = entries-IsAccept es r u

  base-Lengthens : (fw : Firewall) → Lengthens chain IsAccept (add_base_rules h fw)
  unfolding add_base_rules
  base-Lengthens fw =
      let adds = append-Lengthens h chain jump laws IsAccept in
      check-Lengthens chain IsAccept _ (add h accept_loopback) _ (adds accept_loopback (λ e. cc e))
        (ignore-Lengthens chain IsAccept (add_tunnel_rules h fw.tunnel_port (tunnel_ips h fw)) _
          (tunnel-Lengthens h chain jump laws IsAccept fw.tunnel_port (tunnel_ips h fw)
            (address_accepts _ (tunnel_ips h fw)))
          (check-Lengthens chain IsAccept _ (add h accept_dns_udp) _
            (adds accept_dns_udp (λ e. cc e))
            (check-Lengthens chain IsAccept _ (add h accept_dns_tcp) done
              (adds accept_dns_tcp (λ e. cc e)) (done-Lengthens chain IsAccept))))

  finish_failed :
      (fw : Firewall) (entries : List NetworkEntry) (k : K)
      → chain k ≡ []
      → (check [] (add_base_rules h fw) (ignore (add_entries h entries) (drop_rest h)) k).0 ≢ none
      → All IsAccept (
          chain (check [] (add_base_rules h fw) (ignore (add_entries h entries) (drop_rest h)) k).1)
  unfolding ignore done
  finish_failed fw entries k n e =
      let k1 : K = (add_base_rules h fw k).1 in
      let k2 : K = (add_entries h entries k1).1 in
      let base = base-Lengthens fw k in
      let entries_ =
        entries-Lengthens h chain jump laws IsAccept entries (entries-IsAccept entries) k1 in
      let all : All IsAccept (chain k2) =
        accepts k k2 n (Longer-trans chain IsAccept k k1 k2 base entries_) in
      elim (check_failed [] (add_base_rules h fw) (ignore (add_entries h entries) (drop_rest h))
        k) [
          | inl (f, s) ↦ rw s (accepts k k1 n base)
          | inr (f, s) ↦
              rw s elim (check_failed (codes "add drop rule: ") (add h drop_all) done k2) [
                | inl (g, t) ↦ rw (t, laws.not_appended drop_all k2 g) all
                | inr (g, t) ↦ absurd (e (ap (λ r. r.0) (s ∙ t)))
              ]
        ]
    where
      accepts : (a b : K) → chain a ≡ [] → Longer chain IsAccept a b → All IsAccept (chain b)
      accepts a b n (rs, x, p) = rw (x, n) p

  -- If `iptables` does what its manual says, and `Apply` returns an error, the chain is as it was
  -- before, or no rule of it drops anything.
  apply-error :
      (fw : Firewall) (entries : List NetworkEntry) (k : K)
      → (apply h fw entries k).0 ≢ none
      → (chain (apply h fw entries k).1 ≡ chain k)
        ⊎ All (λ r. r ≢ drop_all) (chain (apply h fw entries k).1)
  unfolding apply
  apply-error fw entries k e =
      elim (check_failed (codes "flush chain: ") (h.iptables flush_chain)
        (check [] (add_base_rules h fw) (ignore (add_entries h entries) (drop_rest h))) k) [
          | inl (f, s) ↦ inl (ap chain s ∙ laws.not_flushed k f)
          | inr (f, s) ↦ inr (
              rw s (
                finish_failed fw entries (h.iptables flush_chain k).1 (laws.flushed k f)
                  (λ g. e (ap (λ r. r.0) s ∙ g))))
        ]
