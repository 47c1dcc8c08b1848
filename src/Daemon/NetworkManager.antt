-- ===== src/Daemon/NetworkManager.antt =====
-- `start_network_manager` of payment-daemon/src/network_manager.rs: the probe that each node is sent every
-- minute, and what its health is set to.
use iso8583paymentsengine.Base.{
  ℕ, ◌%◌, ◌^◌, Bool, true, false, none, List, [], ◌∷◌, ◌++◌, if◌then◌else◌,
}
use iso8583paymentsengine.Base.Text.{Bytes, codes}
use iso8583paymentsengine.Base.Dict.{Dict, insert}
use iso8583paymentsengine.Base.Digits.{format_padded}
use iso8583paymentsengine.Canonical.{UniversalPaymentEvent, network_management, purchase}
use iso8583paymentsengine.Switch.State.{Engine, TransactionContext, send_to}

-- The probe, from the seconds since 1970.
unfoldable pub probe : ℕ → UniversalPaymentEvent
probe probe_id = record {
  message_class = network_management;
  transaction_type = purchase;
  mti = codes "0800";
  fpan = codes "0000000000000000";
  dpan = none;
  is_tokenized = false;
  tavv_cryptogram = none;
  processing_code = codes "000000";
  amount = 0;
  stan = format_padded 6 (probe_id % 10 ^ 6);
  local_time = codes "120000";
  local_date = codes "1231";
  rrn = codes "PING" ++ format_padded 8 probe_id;
  response_code = codes "00";
  acquirer_id = codes "NETWORK_MGR";
  pin_block = [];
  risk_score = 0;
  requires_instant_clearing = false;
  domestic_settlement_data = none;
  source_account = none;
  destination_account = none;
  original_data_elements = none;
  mac_data = none;
  is_reversal = false;
}

abbrev pub probe_context : ℕ → TransactionContext
probe_context probe_id = record { transaction = probe probe_id; responder = none }

unfoldable pub set_health : Bytes → Bool → Engine → Engine
set_health n healthy s = record s { node_health = insert n healthy s.node_health }

-- One node: whether its channel has room and a reader, and the clock when it is probed.
unfoldable pub probe_node : (Bytes → Bool) → (Bytes → ℕ) → Bytes → Engine → Engine
unfolding probe set_health send_to
probe_node takes clock n s =
    if takes n
    then set_health n true (send_to n (probe_context (clock n)) s)
    else set_health n false s

unfoldable pub probe_nodes : (Bytes → Bool) → (Bytes → ℕ) → List Bytes → Engine → Engine
unfolding probe_node
probe_nodes takes clock [] s = s
probe_nodes takes clock (n ∷ ns) s = probe_nodes takes clock ns (probe_node takes clock n s)

abbrev pub keys : {V : Type 0} → Dict V → List Bytes
keys [] = []
keys ((k, _) ∷ d) = k ∷ keys d

-- One tick: the channels as they are when it starts.
unfoldable pub tick : (Bytes → Bool) → (Bytes → ℕ) → Engine → Engine
unfolding probe_nodes
tick takes clock s = probe_nodes takes clock (keys s.egress_channels) s
