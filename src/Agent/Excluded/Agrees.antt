-- ===== src/Agent/Excluded/Agrees.antt =====
-- The agent's exclusion list against the broker's.
use suburban_soc.Base.{
  String, ◌≡◌, ◌≢◌, inl, inr, Bool, true, false, ◌||◌, Option, none, some, List, [], ◌∷◌, arith,
  ◌==◌, nat_eq, string_eq, Bool-cases, Option-cases, any,
}
use suburban_soc.Base.Text.{strip, before_hash}
use suburban_soc.Broker.Exclusion.{Ipaddress, covers, names, is_excluded_ip, is_excluded_ip_exact}
use suburban_soc.Agent.Excluded.{
  is_mac, Exclusions, add_entry, parse_exclusions, load_exclusions, entry_holds, ip_excluded,
  excluded_by, is_excluded,
}

still_holds : (p q r : Bool) → (q ≡ true → r ≡ true) → (p || q) ≡ true → (p || r) ≡ true
still_holds p q r f h = ground (arith, f, h)

module _ (ip : Ipaddress) where
  open ip use {Address, ip_address, ip_network, is_in}

  add_entry-holds :
      (addr : Address) (attacker_ip entry : String) (rest : Exclusions)
      → (is_mac entry ≡ true → ip_network entry ≡ none)
      → covers ip addr entry || any (entry_holds ip addr attacker_ip) rest.ips ≡ true
      → any (entry_holds ip addr attacker_ip) (add_entry entry rest).ips ≡ true
  unfolding add_entry covers entry_holds
  add_entry-holds addr attacker_ip entry rest no_network h = elim (Bool-cases (is_mac entry)) [
    | inl mac ↦ ground (arith, mac, no_network mac, h)
    | inr other ↦ elim (Option-cases (ip_network entry)) [
      | inl not_network ↦ ground (arith, other, not_network, h)
      | inr (net, network) ↦ ground (arith, other, network, h)
    ]
  ]

  parse_exclusions-holds :
      (addr : Address) (attacker_ip : String) (lines : List String)
      → ((entry : String) → is_mac entry ≡ true → ip_network entry ≡ none)
      → any (names ip addr) lines ≡ true
      → any (entry_holds ip addr attacker_ip) (parse_exclusions lines).ips ≡ true
  unfolding parse_exclusions
  parse_exclusions-holds addr attacker_ip [] no_network h = ground (arith, h)
  parse_exclusions-holds addr attacker_ip (line ∷ lines) no_network h =
      let ih = parse_exclusions-holds addr attacker_ip lines no_network in
      elim (Bool-cases (strip (before_hash line) == "")) [
        | inl blank ↦ rw blank (ih (ground (arith, blank, h)))
        | inr entry ↦ rw entry (
            add_entry-holds addr attacker_ip (strip (before_hash line)) (parse_exclusions lines)
              (no_network (strip (before_hash line)))
              (still_holds (covers ip addr (strip (before_hash line))) (any (names ip addr) lines) _
                ih (ground (arith, entry, h))))
      ]

  listed :
      (addr : Address) (attacker_ip : String) (lines : List String)
      → ip_address attacker_ip ≡ some addr
      → is_excluded_ip ip (some lines) attacker_ip ≡ some true
      → any (names ip addr) lines ≡ true
  listed addr attacker_ip lines good h =
      ground (arith, good, h, is_excluded_ip_exact ip (some lines) attacker_ip)

  -- An address that the broker's dispatcher refuses is one that the agent refuses: with the same
  -- file, whatever the MAC, for an address text that is not empty, if no MAC parses as a network.
  pub agent_excludes :
      (file : Option (List String)) (attacker_ip mac : String)
      → (attacker_ip == "") ≡ false
      → ((entry : String) → is_mac entry ≡ true → ip_network entry ≡ none)
      → is_excluded_ip ip file attacker_ip ≡ some true
      → is_excluded ip file attacker_ip mac ≢ none
  unfolding is_excluded load_exclusions excluded_by ip_excluded
  agent_excludes none attacker_ip mac named no_network h = ground arith
  agent_excludes (some lines) attacker_ip mac named no_network h =
      elim (Option-cases (ip_address attacker_ip)) [
        | inl bad ↦ ground (arith, bad, h, is_excluded_ip_exact ip (some lines) attacker_ip)
        | inr (addr, good) ↦ ground (
          arith,
          good,
          named,
          parse_exclusions-holds addr attacker_ip lines no_network
              (listed addr attacker_ip lines good h),
        )
      ]
