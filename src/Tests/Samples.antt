-- ===== src/Tests/Samples.antt =====
-- A sale, an engine that routes it, and what the outside does in the tests.
use iso8583paymentsengine.Base.{zero, suc, if◌then◌else◌, true, false, none, some, Option, [], ◌∷◌}
use iso8583paymentsengine.Base.Text.{Bytes, codes}
use iso8583paymentsengine.Base.Int.{pos, negsuc}
use iso8583paymentsengine.Canonical.{financial, purchase, UniversalPaymentEvent}
use iso8583paymentsengine.Routing.{external_node, BinTrieNode, node, nil, child}
use iso8583paymentsengine.Switch.State.{
  CardProfile, TransactionContext, Engine, Environment, new_engine,
}

abbrev pub sale : UniversalPaymentEvent
sale = record {
  message_class = financial;
  transaction_type = purchase;
  mti = codes "0200";
  fpan = codes "4111222233334444";
  dpan = none;
  is_tokenized = false;
  tavv_cryptogram = none;
  processing_code = codes "000000";
  amount = 500;
  stan = codes "000123";
  local_time = codes "101500";
  local_date = codes "0425";
  rrn = codes "000000000077";
  response_code = [];
  acquirer_id = codes "ACQ1";
  pin_block = [];
  risk_score = 0;
  requires_instant_clearing = false;
  domestic_settlement_data = none;
  source_account = none;
  destination_account = none;
  original_data_elements = none;
  mac_data = none;
  is_reversal = false;
}

abbrev pub sale_context : TransactionContext
sale_context = record { transaction = sale; responder = some 7 }

-- Cards that start with 4 go to the Visa node.
abbrev pub visa_router : BinTrieNode
visa_router = node none (
    child b'4'
      (node
        (some (record { destination = external_node (codes "MockVisaNode"); failover_node = none }))
        nil)
      nil)

abbrev pub routed : Engine
routed = record new_engine { router = visa_router }

abbrev pub serialize : CardProfile → Bytes
serialize p = elim p.balance [
  | pos n ↦ ((if p.is_blocked then 1 else 0) ∷ 0 ∷ n ∷ [])
  | negsuc n ↦ ((if p.is_blocked then 1 else 0) ∷ 1 ∷ n ∷ [])
]

abbrev pub deserialize : Bytes → Option CardProfile
deserialize (b ∷ s ∷ n ∷ []) = some (record {
  balance = elim s [ zero ↦ pos n | suc _ ↦ negsuc n ];
  is_blocked = elim b [ zero ↦ false | suc _ ↦ true ];
})
deserialize _ = none

abbrev pub env : Environment
env = record {
  now = 50000;
  journal_open = true;
  ledger_open = true;
  hsm_open = true;
  db_open = true;
  accepts = λ n. true;
  serialize = serialize;
  deserialize = deserialize;
}
