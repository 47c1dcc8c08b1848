-- ===== src/Simulator/Traffic.antt =====
-- The traffic generator of ISO8583PaymentSimulator/src/engine.rs: the transactions it makes, how it writes
-- them and reads the replies, and the counters that its workers share.
pub mod Counters
pub mod Counts
pub mod Counted
pub mod Settled
pub mod Capped
use iso8583paymentsengine.Base.{
  ℕ, zero, suc, ◌+◌, ◌-◌, ◌%◌, ◌/◌, ◌^◌, Bool, true, false, not, ◌||◌, Option, none, some, List, [],
  ◌∷◌, ◌++◌, leb, ltb, length, if◌then◌else◌,
}
use iso8583paymentsengine.Base.Text.{Bytes, codes, bytes_eq}
use iso8583paymentsengine.Base.Digits.{format_padded}
use iso8583paymentsengine.Canonical.{UniversalPaymentEvent, financial, purchase}
use iso8583paymentsengine.Dialect.Fields.{Outcome, ok, err, panic}
use iso8583paymentsengine.Dialect.Universal.{base24, connex}
use iso8583paymentsengine.Dialect.Universal as Universal
use iso8583paymentsengine.Dialect.Standard as Standard

pub data TxType : Type 0 where
  happy_path timeout_path decline_path : TxType

pub data Network : Type 0 where
  visa mastercard amex : Network

pub data EntryMode : Type 0 where
  apple_pay emv pos_terminal : EntryMode

pub data DialectName : Type 0 where
  base24_name connex_name interac_name uk_fps_name iso_1987 iso_1993 iso_2003 : DialectName

-- `DistConfig`, with `F` for `f64`.
pub record DistConfig (F : Type 0) : Type 0 where
  pub happy : F
  pub timeout : F
  pub visa_share : F
  pub mastercard_share : F
  pub apple_pay_share : F
  pub emv_share : F
  pub base24_share : F
  pub connex_share : F
  pub interac_share : F
  pub uk_fps_share : F
  pub iso_1987_share : F
  pub iso_1993_share : F

-- The comparison and the sum of two `f64`; `r` is the number drawn between 0 and 1.
module _ (F : Type 0) (is_below : F → F → Bool) (sum : F → F → F) (config : DistConfig F) where
  unfoldable pub choose_type : F → TxType
  choose_type r =
      if is_below r config.happy
      then happy_path
      else if is_below r (sum config.happy config.timeout)
      then timeout_path
      else decline_path

  unfoldable pub choose_network : F → Network
  choose_network r =
      if is_below r config.visa_share
      then visa
      else if is_below r (sum config.visa_share config.mastercard_share)
      then mastercard
      else amex

  unfoldable pub choose_mode : F → EntryMode
  choose_mode r =
      if is_below r config.apple_pay_share
      then apple_pay
      else if is_below r (sum config.apple_pay_share config.emv_share)
      then emv
      else pos_terminal

  unfoldable pub choose_dialect : F → DialectName
  choose_dialect r =
      let to_connex = sum config.base24_share config.connex_share in
      let to_interac = sum to_connex config.interac_share in
      let to_uk_fps = sum to_interac config.uk_fps_share in
      let to_1987 = sum to_uk_fps config.iso_1987_share in
      if is_below r config.base24_share
      then base24_name
      else if is_below r to_connex
      then connex_name
      else if is_below r to_interac
      then interac_name
      else if is_below r to_uk_fps
      then uk_fps_name
      else if is_below r to_1987
      then iso_1987
      else if is_below r (sum to_1987 config.iso_1993_share)
      then iso_1993
      else iso_2003

unfoldable pub pan_of : Network → EntryMode → Bytes
pan_of n apple_pay = codes "4000000000009999"
pan_of mastercard m = codes "5111111111111111"
pan_of amex m = codes "3711111111111111"
pan_of visa m = codes "4111111111111111"

abbrev pub is_apple_pay : EntryMode → Bool
is_apple_pay apple_pay = true
is_apple_pay _ = false

-- The range that an amount is drawn from, its end not included.
unfoldable pub amount_range : TxType → ℕ × ℕ
amount_range decline_path = (50001, 999999)
amount_range _ = (100, 49999)

-- `generate_transaction`, from the STAN counter before it is incremented, the RRN, the amount that was
-- drawn, and the texts of the clock. The PIN block that it works out for a terminal is not used.
unfoldable pub generate_transaction :
    ℕ → Bytes → Network → EntryMode → ℕ → Bytes × Bytes → UniversalPaymentEvent
unfolding pan_of
generate_transaction counter rrn network mode amount (time, date) = record {
  message_class = financial;
  transaction_type = purchase;
  mti = codes "0200";
  fpan = pan_of network mode;
  dpan = none;
  is_tokenized = is_apple_pay mode;
  tavv_cryptogram = if is_apple_pay mode then some (codes "AABBCCDDEEFF0011") else none;
  processing_code = codes "000000";
  amount = amount;
  stan = format_padded 6 (counter % 999999);
  local_time = time;
  local_date = date;
  rrn = rrn;
  response_code = [];
  acquirer_id = codes "411111";
  pin_block = [];
  risk_score = 0;
  requires_instant_clearing = false;
  domestic_settlement_data = none;
  source_account = none;
  destination_account = none;
  original_data_elements = none;
  mac_data = none;
  is_reversal = false;
}

-- The three ISO versions are written by `StandardDialect`, under their MTIs; the load for Interac and UK
-- FPS is written as Base24.
unfoldable pub encode_for : DialectName → UniversalPaymentEvent → Outcome Bytes
encode_for base24_name tx = Universal.encode base24 tx
encode_for interac_name tx = Universal.encode base24 tx
encode_for uk_fps_name tx = Universal.encode base24 tx
encode_for connex_name tx = Universal.encode connex tx
encode_for iso_1987 tx = ok (Standard.build_response (record tx { mti = codes "0200" }))
encode_for iso_1993 tx = ok (Standard.build_response (record tx { mti = codes "1200" }))
encode_for iso_2003 tx = ok (Standard.build_response (record tx { mti = codes "2200" }))

unfoldable pub decode_for : DialectName → Bytes → Outcome UniversalPaymentEvent
decode_for base24_name body = Universal.decode base24 body
decode_for interac_name body = Universal.decode base24 body
decode_for uk_fps_name body = Universal.decode base24 body
decode_for connex_name body = Universal.decode connex body
decode_for _ body = Standard.parse body

-- The response code of a reply; none if it cannot be decoded.
unfoldable pub read_code : DialectName → Bytes → Outcome (Option Bytes)
unfolding decode_for
read_code name body = elim (decode_for name body) [
  | ok tx ↦ ok (some tx.response_code)
  | err _ ↦ ok none
  | panic ↦ panic
]

unfoldable pub port_of : DialectName → ℕ
port_of interac_name = 8001
port_of uk_fps_name = 8002
port_of _ = 8000
