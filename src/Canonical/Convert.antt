-- ===== src/Canonical/Convert.antt =====
-- `to_pb` and `from_pb` of switch-core/src/lib.rs, and the message class that an MTI selects, which
-- every decoder of the repository writes out in the same way.
use iso8583paymentsengine.Base.{false, ◌||◌, none, ◌≡◌, ◌<◌, ◌^◌, if◌then◌else◌}
use iso8583paymentsengine.Base.Text.{Bytes, codes, bytes_eq, IsAscii}
use iso8583paymentsengine.Base.Utf8.{from_utf8_lossy, from_utf8_lossy-IsAscii}
use iso8583paymentsengine.Base.Int.{as_i64, as_u64, as_u64-as_i64}
use iso8583paymentsengine.Canonical.{
  MessageClass, authorization, financial, reversal_advice, reversal_response, network_management,
  network_management_response, purchase, UniversalPaymentEvent, Transaction,
}

unfoldable pub class_of_mti : Bytes → MessageClass
unfolding bytes_eq
class_of_mti mti =
    if bytes_eq mti (codes "0100") || bytes_eq mti (codes "0110")
    then authorization
    else if bytes_eq mti (codes "0200") || bytes_eq mti (codes "0210")
    then financial
    else if bytes_eq mti (codes "0420") || bytes_eq mti (codes "0421")
    then reversal_advice
    else if bytes_eq mti (codes "0430")
    then reversal_response
    else if bytes_eq mti (codes "0800")
    then network_management
    else if bytes_eq mti (codes "0810")
    then network_management_response
    else financial

unfoldable pub to_pb : UniversalPaymentEvent → Transaction
to_pb c = record {
  mti = from_utf8_lossy c.mti;
  pan = from_utf8_lossy c.fpan;
  processing_code = c.processing_code;
  amount = as_i64 c.amount;
  stan = c.stan;
  rrn = c.rrn;
  response_code = c.response_code;
  acquirer_id = from_utf8_lossy c.acquirer_id;
  pin_block = from_utf8_lossy c.pin_block;
  local_time = c.local_time;
  local_date = c.local_date;
}

unfoldable pub from_pb : Transaction → UniversalPaymentEvent
from_pb pb = record {
  message_class = class_of_mti pb.mti;
  transaction_type = purchase;
  mti = pb.mti;
  fpan = pb.pan;
  dpan = none;
  is_tokenized = false;
  tavv_cryptogram = none;
  processing_code = pb.processing_code;
  amount = as_u64 pb.amount;
  stan = pb.stan;
  local_time = pb.local_time;
  local_date = pb.local_date;
  rrn = pb.rrn;
  response_code = pb.response_code;
  acquirer_id = pb.acquirer_id;
  pin_block = pb.pin_block;
  risk_score = 0;
  requires_instant_clearing = false;
  domestic_settlement_data = none;
  source_account = none;
  destination_account = none;
  original_data_elements = none;
  mac_data = none;
  is_reversal = false;
}

-- The four byte fields of an event that `to_pb` reads as text are ASCII.
pub record IsText (e : UniversalPaymentEvent) : Type 0 where
  pub mti : IsAscii e.mti
  pub fpan : IsAscii e.fpan
  pub acquirer_id : IsAscii e.acquirer_id
  pub pin_block : IsAscii e.pin_block

-- What the protobuf form keeps of an event.
pub stripped : UniversalPaymentEvent → UniversalPaymentEvent
stripped e = record e {
  message_class = class_of_mti e.mti;
  transaction_type = purchase;
  dpan = none;
  is_tokenized = false;
  tavv_cryptogram = none;
  risk_score = 0;
  requires_instant_clearing = false;
  domestic_settlement_data = none;
  source_account = none;
  destination_account = none;
  original_data_elements = none;
  mac_data = none;
  is_reversal = false;
}

-- An event with ASCII byte fields and a 64-bit amount comes back from its protobuf form with the
-- MTI, PAN, amount and the other transported fields unchanged, the message class recomputed from
-- the MTI, and every field that the protobuf message lacks reset: the reversal flag too.
pub from_pb-to_pb :
    (e : UniversalPaymentEvent) → IsText e → e.amount < 2 ^ 64 → from_pb (to_pb e) ≡ stripped e
unfolding from_pb to_pb stripped
from_pb-to_pb e t h = simp (
  from_utf8_lossy-IsAscii e.mti t.mti,
  from_utf8_lossy-IsAscii e.fpan t.fpan,
  from_utf8_lossy-IsAscii e.acquirer_id t.acquirer_id,
  from_utf8_lossy-IsAscii e.pin_block t.pin_block,
  as_u64-as_i64 e.amount h,
)
