-- ===== src/Edge/Egress.antt =====
-- `UpstreamClient` of edge-egress/src/client.rs: the loop that hands messages to a bank's connection, the
-- store of the advices that could not be handed over, and the sweep that sends them later.
pub mod Stored
pub mod Delivery
use iso8583paymentsengine.Base.{
  Bool, true, false, not, ◌&&◌, ◌||◌, Option, none, some, List, [], ◌∷◌, ◌++◌, if◌then◌else◌,
}
use iso8583paymentsengine.Base.Text.{Bytes, codes, bytes_eq}
use iso8583paymentsengine.Base.Utf8.{from_utf8_lossy}
use iso8583paymentsengine.Base.Dict.{Dict, insert, remove}
use iso8583paymentsengine.Canonical.{UniversalPaymentEvent, Transaction}
use iso8583paymentsengine.Canonical.Convert.{to_pb, from_pb}
use iso8583paymentsengine.Switch.State.{TransactionContext}
use iso8583paymentsengine.Dialect.Fields.{Outcome, ok, err, panic}
use iso8583paymentsengine.Dialect.Universal.{connex}
use iso8583paymentsengine.Dialect.Universal as Universal
use iso8583paymentsengine.Edge.Frame as Frame

-- A client: the channel that the switch fills, and what it has put on the connections to its bank.
pub record UpstreamClient : Type 0 where
  pub rx : List TransactionContext
  pub sent : List Bytes

-- The messages that are stored while the bank cannot be reached.
unfoldable pub is_advice : UniversalPaymentEvent → Bool
is_advice tx =
    let mti = from_utf8_lossy tx.mti in bytes_eq mti (codes "0420") || bytes_eq mti (codes "0220")

abbrev pub saf_key : UniversalPaymentEvent → Bytes
saf_key tx = tx.stan ++ (codes "-" ++ tx.rrn)

-- `encode(&tx).unwrap_or_default()`; the encoder does not panic.
unfoldable pub payload_of : UniversalPaymentEvent → Bytes
payload_of tx = elim (Universal.encode connex tx) [ ok bytes ↦ bytes | _ ↦ [] ]

-- A row is sent as the message that the stored transaction makes, behind its length.
unfoldable pub row_frame : (Bytes → Option Transaction) → Bytes → Option Bytes
unfolding payload_of
row_frame decode val = elim (decode val) [
  | none ↦ none
  | some pb ↦ some (Frame.encode (payload_of (from_pb pb)) [])
]

-- A row that can be read and whose frame the socket takes.
abbrev pub is_delivered : (Bytes → Option Transaction) → (Bytes → Bool) → Bytes × Bytes → Bool
is_delivered decode writes (key, val) = elim (row_frame decode val) [
  | none ↦ false
  | some _ ↦ writes key
]

-- The loop over the rows: the keys to remove, and the frames that were sent.
unfoldable pub flush_rows :
    (Bytes → Option Transaction) → (Bytes → Bool) → Dict Bytes → List Bytes × List Bytes
unfolding row_frame
flush_rows decode writes [] = ([], [])
flush_rows decode writes ((key, val) ∷ rows) =
    let (keys, frames) = flush_rows decode writes rows in
    elim (row_frame decode val) [
      | none ↦ (keys, frames)
      | some frame ↦ if writes key then (key ∷ keys, frame ∷ frames) else (keys, frames)
    ]

unfoldable pub remove_keys : List Bytes → Dict Bytes → Dict Bytes
remove_keys [] db = db
remove_keys (k ∷ ks) db = remove_keys ks (remove k db)

-- One sweep of the store: whether the bank can be reached, and which writes succeed.
unfoldable pub saf_flush :
    (Bytes → Option Transaction)
    → Bool
    → (Bytes → Bool)
    → UpstreamClient × Dict Bytes
    → UpstreamClient × Dict Bytes
unfolding flush_rows remove_keys
saf_flush decode connects writes (c, db) =
    let (keys_to_remove, frames) = flush_rows decode writes db in
    if connects
    then (record c { sent = c.sent ++ frames }, remove_keys keys_to_remove db)
    else (c, db)

-- The protobuf encoder is prost's.
module _ (encode : Transaction → Bytes) where
  unfoldable pub store_advice : UniversalPaymentEvent → Dict Bytes → Dict Bytes
  unfolding is_advice
  store_advice tx db = if is_advice tx then insert (saf_key tx) (encode (to_pb tx)) db else db

  -- A round of the loop without a connection: the message that is next is stored or lost.
  unfoldable pub offline_pass : UpstreamClient × Dict Bytes → UpstreamClient × Dict Bytes
  unfolding store_advice
  offline_pass (c, db) = elim c.rx [
    | [] ↦ (c, db)
    | ctx ∷ rest ↦ (record c { rx = rest }, store_advice ctx.transaction db)
  ]

  -- A round of the loop on a connection: whether its writer still takes messages.
  unfoldable pub online_pass : Bool → UpstreamClient × Dict Bytes → UpstreamClient × Dict Bytes
  unfolding store_advice payload_of
  online_pass sink_open (c, db) = elim c.rx [
    | [] ↦ (c, db)
    | ctx ∷ rest ↦
        if sink_open
        then (
          record {
            rx = rest;
            sent = c.sent ++ (Frame.encode (payload_of ctx.transaction) [] ∷ []);
          },
          db,
        )
        else (record c { rx = rest }, store_advice ctx.transaction db)
  ]

-- What the reader of a connection makes of a frame: the bank reply for the switch, or none if it cannot
-- be decoded.
unfoldable pub read_reply : Bytes → Outcome (Option Transaction)
read_reply payload = elim (Universal.decode connex payload) [
  | ok tx ↦ ok (some (to_pb tx))
  | err _ ↦ ok none
  | panic ↦ panic
]
