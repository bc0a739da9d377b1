-- ===== src/Tests/Fixtures.antt =====
-- Concrete stand-ins for what the programs call and the library leaves open.
use suburban_soc.Base.{
  String, false, ◌||◌, Option, none, some, ◌==◌, nat_eq, string_eq, if◌then◌else◌,
}
use Prim.Native.String.{◌++◌ as ◌<>◌}
use suburban_soc.Signing.{ℤ, pos, Crypto, Signed}
use suburban_soc.Agent.Excluded.{is_mac}
use suburban_soc.Broker.Exclusion.{Ipaddress}

-- A digest that names its key and its message, and the numbers of these tests.
unfoldable pub number : String → Option ℤ
number text =
    if text == "0"
    then some (pos 0)
    else if text == "90"
    then some (pos 90)
    else if text == "100"
    then some (pos 100)
    else none

abbrev pub crypto : Crypto
crypto = record { hexdigest = λ key message. key <> ("/" <> message); parse_int = number }

-- Every text but the empty one and a MAC is an address, and the network that holds it alone.
unfoldable pub address : String → Option String
unfolding is_mac
address text = if text == "" || is_mac text then none else some text

abbrev pub addresses : Ipaddress
addresses = record {
  Address = String;
  Network = String;
  ip_address = address;
  ip_network = address;
  is_in = λ addr net. addr == net;
  is_private = λ addr. false;
}

-- A request for second 100 that its sender signed with the key "k" at second `text`.
abbrev pub signed : (domain text body : String) → Signed
signed domain text body = record {
  body = body;
  signature_header = some ("sha256=k/" <> (domain <> (text <> ("." <> body))));
  timestamp_header = some text;
}
