-- ===== src/Core/Policy/Network.antt =====
-- What `check_network_access` accepts, and that the port does not matter to it.
use autonomous_agent_account.Base.{
  ℕ, String, ◌≡◌, ◌↔◌, inl, inr, refl, Bool, true, false, Option, none, some, List, [], ◌∷◌, arith,
  lookup, any, Any, any-Any, Any-any, ok, Option-cases,
}
use autonomous_agent_account.Core.Policy.{
  Capability, file_read, file_write, network_connect, network_deny, file_deny_all, ToolPolicy,
  Policy, denies_network, allows_host, check_network_access,
}

module _ (glob_match : String → String → Bool) (host : String) where
  -- The capability lists hosts, one of which is a pattern that the host matches.
  abbrev pub GrantsHost : Capability → Type 0
  GrantsHost c =
      (hosts : List String) × (c ≡ network_connect hosts)
      × Any (λ h. glob_match h host ≡ true) hosts

  abbrev pub GrantedHost : Bool → Option ToolPolicy → Type 0
  GrantedHost default_deny none = default_deny ≡ false
  GrantedHost default_deny (some p) =
      (¬ Any (λ c. c ≡ network_deny) p.capabilities) × Any GrantsHost p.capabilities

  -- The connection that a policy is meant to allow.
  abbrev pub MayConnect : Policy → String → Type 0
  MayConnect self tool = GrantedHost self.default_deny (lookup tool self.tool_policies)

  hosts_iff :
      (hosts : List String)
      → (any (λ h. glob_match h host) hosts ≡ true) ↔ Any (λ h. glob_match h host ≡ true) hosts
  hosts_iff hosts =
      (any-Any _ _ (λ h. (λ e. e, λ e. e)) hosts, Any-any _ _ (λ h. (λ e. e, λ e. e)) hosts)

  allows_host_iff : (c : Capability) → (allows_host glob_match host c ≡ true) ↔ GrantsHost c
  allows_host_iff (network_connect hosts) =
      (λ h. (hosts, refl, (hosts_iff hosts).0 h), λ (hs, e, h). ground (arith, hosts_iff hs))
  allows_host_iff (file_read p) = (λ h. cc, λ (q, e, h). ground arith)
  allows_host_iff (file_write p) = (λ h. cc, λ (q, e, h). ground arith)
  allows_host_iff network_deny = (λ h. cc, λ (q, e, h). ground arith)
  allows_host_iff file_deny_all = (λ h. cc, λ (q, e, h). ground arith)

denies_network_iff :
    (caps : List Capability) → (denies_network caps ≡ true) ↔ Any (λ c. c ≡ network_deny) caps
unfolding denies_network
denies_network_iff [] = (λ h. cc, λ h. absurd h)
denies_network_iff (network_deny ∷ caps) = (λ h. inl refl, λ h. refl)
denies_network_iff (file_read p ∷ caps) = ground (arith, denies_network_iff caps)
denies_network_iff (file_write p ∷ caps) = ground (arith, denies_network_iff caps)
denies_network_iff (network_connect hs ∷ caps) = ground (arith, denies_network_iff caps)
denies_network_iff (file_deny_all ∷ caps) = ground (arith, denies_network_iff caps)

module _ (glob_match : String → String → Bool) where
  -- A network check accepts, at any port, exactly the hosts that match a pattern listed by one of
  -- the tool's capabilities with no `NetworkDeny` among them, or any host for a tool that a policy
  -- without `default_deny` does not name.
  pub check_network_access-ok_iff :
      (self : Policy) (tool host : String) (port : ℕ)
      → (check_network_access glob_match self tool host port ≡ ok tt)
        ↔ MayConnect glob_match host self tool
  unfolding check_network_access
  check_network_access-ok_iff self tool host port =
      elim (Option-cases (lookup tool self.tool_policies)) [
        | inl unknown ↦ rw unknown (ground arith)
        | inr (p, known) ↦ rw known (
            ground (
              arith,
              denies_network_iff p.capabilities,
              any-Any (allows_host glob_match host) (GrantsHost glob_match host)
                  (allows_host_iff glob_match host) p.capabilities,
              Any-any (allows_host glob_match host) (GrantsHost glob_match host)
                  (allows_host_iff glob_match host) p.capabilities,
            ))
      ]
