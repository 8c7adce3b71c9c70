-- ===== src/Policy/Firewall.antt =====
-- internal/network/firewall.go: the egress chain. The command `iptables`, the resolver and the
-- functions of package net are parameters; each command is a constructor for its list of arguments.
pub mod Chain
pub mod Rebuild
pub mod Install
mod Examples
use mathlib.Core.Path.{◌≡◌}
use aether_agent.Prelude.{
  ℕ, Bool, true, false, not, Option, none, some, List, [], ◌∷◌, ◌++◌, if◌then◌else◌, Bytes, itoa,
  codes, same, contains,
}
use aether_agent.Policy.Manifest.{NetworkEntry}

-- The rules that the chain gets; a port of `none` is a rule without `--dport`.
pub data Rule : Type 0 where
  accept_loopback : Rule
  accept_tcp : Bytes → Option Bytes → Rule
  accept_dns_udp : Rule
  accept_dns_tcp : Rule
  drop_all : Rule

-- The commands: `-N`, `-F` and `-X` of the chain, `-A` of a rule to it, and `-C`, `-A` and `-D` of the
-- jump from OUTPUT to it.
pub data Command : Type 0 where
  new_chain : Command
  flush_chain : Command
  delete_chain : Command
  append_rule : Rule → Command
  check_jump : Command
  append_jump : Command
  delete_jump : Command

pub record Firewall : Type 0 where
  pub tunnel_host : Bytes
  pub tunnel_port : ℕ

-- An error, if there is one, and the kernel after it.
abbrev pub Action : Type 0 → Type 0
Action K = K → Option Bytes × K

module _ {K : Type 0} where
  -- `if err := first; err != nil { return fmt.Errorf("prefix%w", err) }`, then the rest.
  unfoldable pub check : Bytes → Action K → Action K → Action K
  check prefix first rest k =
      let (err, k') = first k in elim err [ none ↦ rest k' | some e ↦ (some (prefix ++ e), k') ]

  unfoldable pub done : Action K
  done k = (none, k)

  -- A call whose error is only logged or dropped.
  unfoldable pub ignore : Action K → Action K → Action K
  ignore first rest k = rest (first k).1

-- What the code takes from package net, and the command.
pub record Host (K : Type 0) : Type 0 where
  pub iptables : Command → Action K
  pub parse_ip : Bytes → Bool
  pub lookup_host : Bytes → Option (List Bytes)
  pub split_host_port : Bytes → Option (Bytes × Bytes)

module _ {K : Type 0} (h : Host K) where
  unfoldable pub resolve_host : Bytes → List Bytes
  resolve_host host =
      if h.parse_ip host
      then host ∷ []
      else elim (h.lookup_host host) [ none ↦ [] | some addrs ↦ addrs ]

  unfoldable pub split_host_port : Bytes → Bytes × Bytes
  split_host_port pattern_ = elim (h.split_host_port pattern_) [
    | none ↦ (pattern_, [])
    | some (host, port) ↦ (host, port)
  ]

  abbrev pub port_of : Bytes → Option Bytes
  port_of [] = none
  port_of (c ∷ cs) = some (c ∷ cs)

  unfoldable pub add_tunnel_rules : ℕ → List Bytes → Action K
  unfolding ignore
  add_tunnel_rules port [] k = (none, k)
  add_tunnel_rules port (ip ∷ ips) k =
      ignore (h.iptables (append_rule (accept_tcp (ip ++ codes "/32") (some (itoa port)))))
        (add_tunnel_rules port ips) k

  abbrev pub tunnel_ips : Firewall → List Bytes
  tunnel_ips fw = if same fw.tunnel_host [] then [] else resolve_host fw.tunnel_host

  unfoldable pub add_base_rules : Firewall → Action K
  add_base_rules fw =
      check (codes "add loopback rule: ") (h.iptables (append_rule accept_loopback)) (
        ignore (add_tunnel_rules fw.tunnel_port (tunnel_ips fw)) (
          check (codes "add dns udp rule: ") (h.iptables (append_rule accept_dns_udp))
            (check (codes "add dns tcp rule: ") (h.iptables (append_rule accept_dns_tcp)) done)))

  unfoldable pub add_ip_rules : Option Bytes → List Bytes → Action K
  add_ip_rules port [] = done
  add_ip_rules port (ip ∷ ips) =
      check [] (h.iptables (append_rule (accept_tcp (ip ++ codes "/32") port)))
        (add_ip_rules port ips)

  unfoldable pub add_entry_rules : NetworkEntry → Action K
  add_entry_rules entry k =
      let (host, port) = split_host_port entry.pattern_ in
      let ips = resolve_host host in
      if same host [] then (some (codes "invalid pattern: " ++ entry.pattern_), k) else elim ips [
        | [] ↦ h.iptables (append_rule (accept_tcp host (port_of port))) k
        | ip ∷ more ↦ add_ip_rules (port_of port) (ip ∷ more) k
      ]

  unfoldable pub add_entries : List NetworkEntry → Action K
  add_entries [] = done
  add_entries (entry ∷ entries) = ignore (add_entry_rules entry) (add_entries entries)

  unfoldable pub apply : Firewall → List NetworkEntry → Action K
  apply fw entries = check (codes "flush chain: ") (h.iptables flush_chain) (
      check [] (add_base_rules fw) (
        ignore (add_entries entries)
          (check (codes "add drop rule: ") (h.iptables (append_rule drop_all)) done)))

  unfoldable pub teardown : Action K
  teardown =
      ignore (h.iptables delete_jump)
        (ignore (h.iptables flush_chain) (ignore (h.iptables delete_chain) done))

  unfoldable pub create_chain : Action K
  create_chain k =
      let (err, k') = h.iptables new_chain k in
      elim err [
        | none ↦ (none, k')
        | some e ↦
            if contains e (codes "already exists")
            then check (codes "flush existing chain: ") (h.iptables flush_chain) done k'
            else (some (codes "create chain: " ++ e), k')
      ]

  unfoldable pub add_jump : Action K
  add_jump k =
      let (err, k') = h.iptables check_jump k in
      elim err [
        | none ↦ (none, k')
        | some e ↦ check (codes "add output jump: ") (h.iptables append_jump) done k'
      ]

  unfoldable pub init : Firewall → Action K
  init fw = check [] create_chain (
      check [] add_jump (
        check [] (add_base_rules fw)
          (check (codes "add drop rule: ") (h.iptables (append_rule drop_all)) done)))
