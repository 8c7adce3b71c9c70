-- ===== src/Policy/Firewall/Examples.antt =====
-- The firewall on a small kernel, whose command fails where a test says so.
use mathlib.Core.Path.{◌≡◌, refl, ap}
use aether_agent.Prelude.{
  ℕ, ◌⊎◌, inl, inr, ◌≢◌, Bool, true, false, Option, none, some, List, [], ◌∷◌, ◌++◌, All,
  Bool-cases, if◌then◌else◌, Bytes, codes,
}
use aether_agent.Policy.Manifest.{NetworkEntry}
use aether_agent.Policy.Firewall.{
  Rule, accept_loopback, accept_dns_udp, accept_dns_tcp, drop_all, Command, new_chain, flush_chain,
  delete_chain, append_rule, check_jump, append_jump, delete_jump, Firewall, Action, Host, apply,
  check, done, ignore, add_base_rules, add_entries, add_tunnel_rules, add_entry_rules, add_ip_rules,
  resolve_host, split_host_port,
}
use aether_agent.Policy.Firewall.Chain.{IsIptables}
use aether_agent.Policy.Firewall.Rebuild.{IsClosed, apply-IsClosed}

record Kernel : Type 0 where
  pub rules : List Rule
  pub jump : Bool

abbrev effect : Command → Kernel → Kernel
effect new_chain k = record k { rules = [] }
effect flush_chain k = record k { rules = [] }
effect delete_chain k = record k { rules = [] }
effect (append_rule r) k = record k { rules = k.rules ++ (r ∷ []) }
effect check_jump k = k
effect append_jump k = record k { jump = true }
effect delete_jump k = record k { jump = false }

abbrev run_unless : Option Bytes → Command → Kernel → Option Bytes × Kernel
run_unless none c k = (none, effect c k)
run_unless (some message) c k = (some message, k)

abbrev machine : (Command → Option Bytes) → Command → Kernel → Option Bytes × Kernel
machine refuses check_jump k = if k.jump then (none, k) else (some (codes "Bad rule"), k)
machine refuses new_chain k = run_unless (refuses new_chain) new_chain k
machine refuses flush_chain k = run_unless (refuses flush_chain) flush_chain k
machine refuses delete_chain k = run_unless (refuses delete_chain) delete_chain k
machine refuses (append_rule r) k = run_unless (refuses (append_rule r)) (append_rule r) k
machine refuses append_jump k = run_unless (refuses append_jump) append_jump k
machine refuses delete_jump k = run_unless (refuses delete_jump) delete_jump k

abbrev host : (Command → Option Bytes) → Host Kernel
host refuses = record {
  iptables = machine refuses;
  parse_ip = λ h. false;
  lookup_host = λ h. some (codes "10.0.0.1" ∷ []);
  split_host_port = λ h. none;
}

succeeds :
    (o : Option Bytes) (c : Command) (k : Kernel)
    → (run_unless o c k).0 ≡ none
    → (run_unless o c k).1 ≡ effect c k
succeeds none c k e = refl
succeeds (some m) c k e = cc

fails :
    (o : Option Bytes) (c : Command) (k : Kernel)
    → (run_unless o c k).0 ≢ none
    → (run_unless o c k).1 ≡ k
fails none c k e = absurd (e refl)
fails (some m) c k e = refl

keeps_jump :
    (o : Option Bytes) (r : Rule) (k : Kernel) → (run_unless o (append_rule r) k).1.jump ≡ k.jump
keeps_jump none r k = refl
keeps_jump (some m) r k = refl

keeps_rules : (o : Option Bytes) (k : Kernel) → (run_unless o append_jump k).1.rules ≡ k.rules
keeps_rules none k = refl
keeps_rules (some m) k = refl

check_jump-jump :
    (refuses : Command → Option Bytes) (k : Kernel)
    → (machine refuses check_jump k).0 ≡ none
    → (machine refuses check_jump k).1.jump ≡ true
check_jump-jump refuses k e = elim (Bool-cases k.jump) [ inl f ↦ simp f | inr f ↦ cc (simp f at e) ]

check_jump-rules :
    (refuses : Command → Option Bytes) (k : Kernel)
    → (machine refuses check_jump k).1.rules ≡ k.rules
check_jump-rules refuses k = elim (Bool-cases k.jump) [ inl f ↦ rw f | inr f ↦ rw f ]

machine-IsIptables :
    (refuses : Command → Option Bytes) → IsIptables (host refuses) (λ k. k.rules) (λ k. k.jump)
machine-IsIptables refuses = record {
  appended = λ r k e. ap (λ m. m.rules) (succeeds (refuses (append_rule r)) (append_rule r) k e);
  not_appended = λ r k e. ap (λ m. m.rules) (fails (refuses (append_rule r)) (append_rule r) k e);
  flushed = λ k e. ap (λ m. m.rules) (succeeds (refuses flush_chain) flush_chain k e);
  not_flushed = λ k e. ap (λ m. m.rules) (fails (refuses flush_chain) flush_chain k e);
  created = λ k e. ap (λ m. m.rules) (succeeds (refuses new_chain) new_chain k e);
  checked = check_jump-jump refuses;
  jumped = λ k e. ap (λ m. m.jump) (succeeds (refuses append_jump) append_jump k e);
  check_keeps = check_jump-rules refuses;
  jump_keeps = λ k. keeps_rules (refuses append_jump) k;
  append_keeps = λ r k. keeps_jump (refuses (append_rule r)) r k;
}

-- Nothing is refused; the chain is there already; the last rule is refused.
abbrev willing : Command → Option Bytes
willing c = none

abbrev chain_exists : Command → Option Bytes
chain_exists new_chain = some (codes "iptables: Chain already exists.")
chain_exists flush_chain = none
chain_exists delete_chain = none
chain_exists (append_rule r) = none
chain_exists check_jump = none
chain_exists append_jump = none
chain_exists delete_jump = none

abbrev no_drop : Command → Option Bytes
no_drop (append_rule drop_all) = some (codes "xtables lock")
no_drop (append_rule accept_loopback) = none
no_drop (append_rule accept_dns_udp) = none
no_drop (append_rule accept_dns_tcp) = none
no_drop (append_rule (aether_agent.Policy.Firewall.accept_tcp d p)) = none
no_drop new_chain = none
no_drop flush_chain = none
no_drop delete_chain = none
no_drop check_jump = none
no_drop append_jump = none
no_drop delete_jump = none

abbrev tunnel : Firewall
tunnel = record { tunnel_host = codes "hub"; tunnel_port = 443 }

abbrev entries : List NetworkEntry
entries =
    record {
      ability_id = [];
      pattern_ = codes "db";
      protocol = [];
      direction = [];
      credential_key = [];
      inspect = false;
    }
    ∷ []

abbrev closed : Kernel
closed = record { rules = drop_all ∷ []; jump = true }

abbrev fresh : Kernel
fresh = record { rules = drop_all ∷ []; jump = false }

apply-none : (apply (host willing) tunnel entries closed).0 ≡ none
unfolding apply check add_base_rules ignore done
apply-none = refl

apply-some :
    (apply (host no_drop) tunnel entries closed).0 ≡ some (codes "add drop rule: xtables lock")
unfolding apply check add_base_rules ignore done
apply-some = refl

apply-IsClosed_example :
    IsClosed (host willing) tunnel entries (apply (host willing) tunnel entries closed).1.rules
apply-IsClosed_example =
    apply-IsClosed (host willing) (λ k. k.rules) (λ k. k.jump) (machine-IsIptables willing) tunnel
      entries closed apply-none

-- No rule is refused.
abbrev nothing : Rule → Bool
nothing r = false
