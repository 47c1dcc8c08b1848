-- ===== src/Simulator/Bank.antt =====
-- The simulated banks of mock-bank-node/src/main.rs: the rules by which they answer a message.
pub mod Answered
use iso8583paymentsengine.Base.{ltb, Option, none, some, if◌then◌else◌, ◌-◌, drop, length, ◌>>=◌}
use iso8583paymentsengine.Base.Text.{Bytes, codes, bytes_eq}
use iso8583paymentsengine.Canonical.{
  MessageClass, UniversalPaymentEvent, authorization, financial, reversal_advice, reversal_response,
  network_management, network_management_response,
}
use iso8583paymentsengine.Dialect.Fields.{Outcome, ok, err, panic}
use iso8583paymentsengine.Dialect.Universal.{DialectRouter, decode, encode}

-- 51 for more than 50000, 59 for a PAN that ends with 9999, and 00 otherwise.
unfoldable pub response_code_for : UniversalPaymentEvent → Bytes
response_code_for tx =
    if ltb 50000 tx.amount
    then codes "51"
    else if bytes_eq (drop (length tx.fpan - 4) tx.fpan) (codes "9999")
    then codes "59"
    else codes "00"

-- The `match` on the message class; none is a message that is dropped.
unfoldable pub response_of_class :
    MessageClass → UniversalPaymentEvent → Option UniversalPaymentEvent
unfolding response_code_for
response_of_class network_management tx = some (record tx {
  mti = codes "0810";
  response_code = codes "00";
  message_class = network_management_response;
})
response_of_class reversal_advice tx = some (record tx {
  mti = codes "0430";
  response_code = codes "00";
  message_class = reversal_response;
})
response_of_class authorization tx =
    some (record tx { mti = codes "0110"; response_code = response_code_for tx })
response_of_class financial tx =
    some (record tx { mti = codes "0210"; response_code = response_code_for tx })
response_of_class _ tx = none

-- The encoder does not panic.
unfoldable pub process_bank_rules : UniversalPaymentEvent → DialectRouter → Option Bytes
unfolding response_of_class
process_bank_rules tx dialect = response_of_class tx.message_class tx >>= λ response.
    elim (encode dialect response) [ ok b ↦ some b | _ ↦ none ]

-- What a bank makes of a frame; one that cannot be decoded is dropped.
unfoldable pub answer : DialectRouter → Bytes → Outcome (Option Bytes)
unfolding process_bank_rules
answer dialect payload = elim (decode dialect payload) [
  | ok tx ↦ ok (process_bank_rules tx dialect)
  | err _ ↦ ok none
  | panic ↦ panic
]
