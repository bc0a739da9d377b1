-- ===== src/Broker/Exclusion.antt =====
-- The permanent exclusion list and address validation of scripts/hive-mind-broker/dispatcher.py.
-- `ipaddress` is a parameter; the file is the list of its lines, none if it cannot be read.
use suburban_soc.Base.{
  String, Bool, true, false, Option, none, some, List, [], ◌∷◌, ◌==◌, string_eq, if◌then◌else◌,
  ◌||◌, ◌≡◌, any, arith, Option-cases, inl, inr, refl,
}
use suburban_soc.Base.Text.{strip, before_hash}

-- What the programs use of Python's `ipaddress`; none is a `ValueError`, and networks are read
-- with `strict=False`.
pub record Ipaddress : Type 1 where
  pub Address : Type 0
  pub Network : Type 0
  pub ip_address : String → Option Address
  pub ip_network : String → Option Network
  pub is_in : Address → Network → Bool
  pub is_private : Address → Bool

module _ (ip : Ipaddress) where
  open ip use {Address, ip_address, ip_network, is_in}

  -- An entry that is no address and no network, such as a MAC, is skipped.
  keep_entry : String → List String → List String
  keep_entry entry rest = elim (ip_network entry) [ none ↦ rest | some _ ↦ entry ∷ rest ]

  -- `ips`, with repetitions: the set is only searched
  pub parse_entries : List String → List String
  unfolding keep_entry
  parse_entries [] = []
  parse_entries (line ∷ lines) =
      let rest = parse_entries lines in
      let entry = strip (before_hash line) in if entry == "" then rest else keep_entry entry rest

  -- none is `ExclusionListUnavailable`
  pub load_excluded_ips : Option (List String) → Option (List String)
  unfolding parse_entries
  load_excluded_ips none = none
  load_excluded_ips (some lines) = some (parse_entries lines)

  unfoldable pub covers : Address → String → Bool
  covers addr entry = elim (ip_network entry) [ none ↦ false | some net ↦ is_in addr net ]

  pub any_covers : Address → List String → Bool
  unfolding covers
  any_covers addr [] = false
  any_covers addr (entry ∷ rest) = covers addr entry || any_covers addr rest

  excludes : Address → Option (List String) → Bool
  unfolding any_covers
  excludes addr none = true
  excludes addr (some entries) = any_covers addr entries

  -- none is the `ValueError` of `validate_ip`
  unfoldable pub is_excluded_ip : Option (List String) → String → Option Bool
  unfolding excludes load_excluded_ips
  is_excluded_ip file attacker_ip = elim (ip_address attacker_ip) [
    | none ↦ none
    | some addr ↦ some (excludes addr (load_excluded_ips file))
  ]

  -- A line of the list that names a network which holds the address.
  abbrev pub names : Address → String → Bool
  names addr line =
      let entry = strip (before_hash line) in if entry == "" then false else covers addr entry

  any_covers-parse :
      (addr : Address) (lines : List String)
      → any_covers addr (parse_entries lines) ≡ any (names addr) lines
  unfolding any_covers parse_entries
  any_covers-parse addr [] = refl
  any_covers-parse addr (line ∷ lines) = ground (arith, any_covers-parse addr lines)

  -- The list read line by line, with no set in between.
  abbrev pub excluded_by_lines : Option (List String) → String → Option Bool
  excluded_by_lines file attacker_ip = elim (ip_address attacker_ip) [
    | none ↦ none
    | some addr ↦ some (elim file [ none ↦ true | some lines ↦ any (names addr) lines ])
  ]

  -- A text that is no address raises. Where the list cannot be read every address is excluded; where
  -- it can, an address is excluded exactly if a line, with its comment cut off and stripped, names a
  -- network that holds it.
  pub is_excluded_ip_exact :
      (file : Option (List String)) (attacker_ip : String)
      → is_excluded_ip file attacker_ip ≡ excluded_by_lines file attacker_ip
  unfolding is_excluded_ip
  is_excluded_ip_exact none attacker_ip = ground arith
  is_excluded_ip_exact (some lines) attacker_ip = elim (Option-cases (ip_address attacker_ip)) [
    | inl bad ↦ ground (arith, bad)
    | inr (addr, good) ↦ ground (arith, good, any_covers-parse addr lines)
  ]
