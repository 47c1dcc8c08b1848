-- ===== src/Canonical.antt =====
-- The canonical payment event of payment-proto/src/canonical.rs, the protobuf `Transaction` of
-- payment-proto/proto/payment.proto, and the conversions of switch-core/src/lib.rs.
pub mod Convert
use iso8583paymentsengine.Base.{ℕ, Bool, Option}
use iso8583paymentsengine.Base.Text.{Bytes}
use iso8583paymentsengine.Base.Int.{ℤ}

pub data MessageClass : Type 0 where
  authorization financial reversal_advice reversal_response : MessageClass
  network_management network_management_response file_update : MessageClass

pub data TransactionType : Type 0 where
  cash_withdrawal balance_inquiry purchase refund settlement : TransactionType

-- The one-field wrappers (`Stan`, `Rrn`, ...) are their strings.
pub record UniversalPaymentEvent : Type 0 where
  pub message_class : MessageClass
  pub transaction_type : TransactionType
  pub mti : Bytes
  pub fpan : Bytes
  pub dpan : Option Bytes
  pub is_tokenized : Bool
  pub tavv_cryptogram : Option Bytes
  pub processing_code : Bytes
  pub amount : ℕ
  pub stan : Bytes
  pub local_time : Bytes
  pub local_date : Bytes
  pub rrn : Bytes
  pub response_code : Bytes
  pub acquirer_id : Bytes
  pub pin_block : Bytes
  pub risk_score : ℕ
  pub requires_instant_clearing : Bool
  pub domestic_settlement_data : Option Bytes
  pub source_account : Option Bytes
  pub destination_account : Option Bytes
  pub original_data_elements : Option Bytes
  pub mac_data : Option Bytes
  pub is_reversal : Bool

-- The protobuf message; its `int64` amount is signed.
pub record Transaction : Type 0 where
  pub mti : Bytes
  pub pan : Bytes
  pub processing_code : Bytes
  pub amount : ℤ
  pub stan : Bytes
  pub rrn : Bytes
  pub response_code : Bytes
  pub acquirer_id : Bytes
  pub pin_block : Bytes
  pub local_time : Bytes
  pub local_date : Bytes
