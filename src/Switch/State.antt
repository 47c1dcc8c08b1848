-- ===== src/Switch/State.antt =====
-- The data of context.rs, state.rs, compliance.rs and tsp_vault.rs, and the shared state that the
-- threads of engine.rs hold.
use iso8583paymentsengine.Base.{
  ℕ, Bool, true, false, Option, none, some, List, [], ◌∷◌, ◌++◌, leb, if◌then◌else◌, length, ◌>>=◌,
}
use iso8583paymentsengine.Base.Text.{Bytes, codes, slice}
use iso8583paymentsengine.Base.Utf8.{from_utf8_lossy}
use iso8583paymentsengine.Base.Int.{ℤ}
use iso8583paymentsengine.Base.Dict.{Dict, lookup, contains_key, insert, remove}
use iso8583paymentsengine.Canonical.{UniversalPaymentEvent, Transaction}
use iso8583paymentsengine.Routing.{BinTrieNode, empty_node}

pub data NetworkState : Type 0 where
  hsm_pending upstream_sent reversed reversed_pending completed : NetworkState

-- The sending half of a oneshot channel: the terminal's connection that waits on it.
abbrev pub Responder : Type 0
Responder = ℕ

pub record ActiveTransaction : Type 0 where
  pub created_at : ℕ
  pub state : NetworkState
  pub responder : Option Responder
  pub transaction_data : Transaction
  pub egress_stan : Option Bytes

pub record TransactionContext : Type 0 where
  pub transaction : UniversalPaymentEvent
  pub responder : Option Responder

pub record CardProfile : Type 0 where
  pub balance : ℤ
  pub is_blocked : Bool

pub record StipRule : Type 0 where
  pub action : Bytes
  pub max_risk_score : ℕ

-- The `balance` of a card record, an `f64`, is read nowhere in the engine.
pub record CardRecord : Type 0 where
  pub is_blocked : Bool
  pub pvv : Bytes

-- The maps of `GlobalState`, `ComplianceGuard` and `SwitchEngine`, and the channels as the lists of
-- what was sent: to the node of that name, to the HSM worker, to the ledger worker, to the journal
-- and to the terminals.
pub record Engine : Type 0 where
  pub compliance_cache : Dict Bytes
  pub token_map : Dict Bytes
  pub stip_rules : Dict StipRule
  pub crdb_cards : Dict CardRecord
  pub router : BinTrieNode
  pub node_health : Dict Bool
  pub egress_channels : Dict (List TransactionContext)
  pub stan_nat : Dict Bytes
  pub stan_counter : ℕ
  pub idempotency_guard : Dict ActiveTransaction
  pub stip_db : Dict Bytes
  pub hsm_queue : List TransactionContext
  pub ledger_queue : List UniversalPaymentEvent
  pub journal : List Transaction
  pub replies : List (Responder × UniversalPaymentEvent)

-- `TspVault::new`
abbrev pub seeded_vault : Dict Bytes
seeded_vault = (codes "4000000000009999", codes "4111222233334444") ∷ []

-- `TspVault::detokenize`
unfoldable pub detokenize : Dict Bytes → Bytes → Option Bytes
detokenize token_map dpan = lookup dpan token_map

-- `GlobalState::new`, and the channels that `SwitchEngine::start` registers.
unfoldable pub new_engine : Engine
new_engine = record {
  compliance_cache = [];
  token_map = seeded_vault;
  stip_rules = [];
  crdb_cards = [];
  router = empty_node;
  node_health = [];
  egress_channels = (codes "MockVisaNode", []) ∷ (codes "MockMastercardNode", []) ∷ [];
  stan_nat = [];
  stan_counter = 0;
  idempotency_guard = [];
  stip_db = [];
  hsm_queue = [];
  ledger_queue = [];
  journal = [];
  replies = [];
}

-- `if let Some(responder) = … { let _ = responder.send(event); }`
unfoldable pub send_reply : Option Responder → UniversalPaymentEvent → Engine → Engine
send_reply none event s = s
send_reply (some r) event s = record s { replies = s.replies ++ ((r, event) ∷ []) }

-- The entry of a key in the idempotency guard, written and removed.
unfoldable pub put_entry : Bytes → ActiveTransaction → Engine → Engine
put_entry key a s = record s { idempotency_guard = insert key a s.idempotency_guard }

unfoldable pub drop_entry : Bytes → Engine → Engine
drop_entry key s = record s { idempotency_guard = remove key s.idempotency_guard }

-- A message put into the channel of a node; nothing happens if no node has that name.
unfoldable pub send_to : Bytes → TransactionContext → Engine → Engine
send_to n ctx s = elim (lookup n s.egress_channels) [
  | none ↦ s
  | some q ↦ record s { egress_channels = insert n (q ++ (ctx ∷ [])) s.egress_channels }
]

-- `node_health.get(n)`: a node that was never probed counts as online.
unfoldable pub is_online : Bytes → Engine → Bool
is_online n s = elim (lookup n s.node_health) [ none ↦ true | some h ↦ h ]

-- The reply that every refusal sends: the request with MTI 0110 and a response code.
unfoldable pub decline : Bytes → UniversalPaymentEvent → UniversalPaymentEvent
decline rc e = record e { mti = codes "0110"; response_code = rc }

-- `ComplianceGuard::evaluate`; `none` is the panic of a PAN that has no boundary at byte 6.
unfoldable pub evaluate : Dict Bytes → TransactionContext → Option Bool
evaluate cache ctx =
    let pan = from_utf8_lossy ctx.transaction.fpan in
    if leb 6 (length pan)
    then (slice 0 6 pan >>= λ bin. some (contains_key (codes "bin:" ++ bin) cache))
    else some false

-- What one pass of a loop meets outside the engine: the clock in milliseconds, which channels and
-- databases are open, which nodes take a message within 100 ms, and the `bincode` of card profiles.
pub record Environment : Type 0 where
  pub now : ℕ
  pub journal_open : Bool
  pub ledger_open : Bool
  pub hsm_open : Bool
  pub db_open : Bool
  pub accepts : Bytes → Bool
  pub serialize : CardProfile → Bytes
  pub deserialize : Bytes → Option CardProfile

-- `journaler.append(&tx)`
unfoldable pub append_journal : Transaction → Engine → Engine
append_journal tx s = record s { journal = s.journal ++ (tx ∷ []) }

-- `let _ = ledger_tx.send(event);`
unfoldable pub send_ledger : Environment → UniversalPaymentEvent → Engine → Engine
send_ledger env e s =
    if env.ledger_open then record s { ledger_queue = s.ledger_queue ++ (e ∷ []) } else s
