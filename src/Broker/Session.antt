-- ===== src/Broker/Session.antt =====
-- Requests to the broker's four endpoints, one after the other.
pub mod Once
pub mod Safety
use suburban_soc.Base.{ℕ, String, Bool, Option, List, [], ◌∷◌}
use suburban_soc.Signing.{Crypto}
use suburban_soc.Broker.Exclusion.{Ipaddress}
use suburban_soc.Broker.Service.{Config, Payload, Request, State}
use suburban_soc.Broker.Alert.{receive_alert}
use suburban_soc.Broker.Dispatch.{dispatch_block}
use suburban_soc.Broker.Approve.{approve, list_pending}

pub data Endpoint : Type 0 where
  alert dispatch approval pending : Endpoint

module _ (c : Crypto) (ip : Ipaddress) (is_control : ℕ → Bool) (cfg : Config)
    (loads : String → Option (Option Payload)) where
  unfoldable pub handle : Endpoint → Request → State → State
  handle alert q s = (receive_alert c ip is_control cfg loads q s).1
  handle dispatch q s = (dispatch_block c ip is_control cfg loads q s).1
  handle approval q s = (approve c ip is_control cfg loads q s).1
  handle pending q s = (list_pending c ip is_control cfg q s).1

  unfoldable pub serve : List (Endpoint × Request) → State → State
  unfolding handle
  serve [] s = s
  serve ((e, q) ∷ rest) s = serve rest (handle e q s)
