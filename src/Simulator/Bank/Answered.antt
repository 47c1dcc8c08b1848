-- ===== src/Simulator/Bank/Answered.antt =====
-- What the switch reads in the answer of a bank of mock-bank-node/src/main.rs.
use iso8583paymentsengine.Base as Base
use iso8583paymentsengine.Base.{
  ◌≡◌, refl, sym, ap, ◌∙◌, false, Option, none, some, ◌≤◌, inl, inr, length, drop, ltb, ◌-◌,
  if_cases, arith,
}
use iso8583paymentsengine.Base.Text.{Bytes, codes, bytes_eq}
use iso8583paymentsengine.Canonical.{UniversalPaymentEvent, financial}
use iso8583paymentsengine.Canonical.Convert.{class_of_mti}
use iso8583paymentsengine.Dialect.Fields.{Outcome, ok, err, panic, ◌>>=◌}
use iso8583paymentsengine.Dialect.Universal.{DialectRouter, base24, connex, decode, encode}
use iso8583paymentsengine.Dialect.Event.{blank_event, is_reversal_mti}
use iso8583paymentsengine.Dialect.Subset.Common.{IsText}
use iso8583paymentsengine.Dialect.Universal.RoundTrip.{IsEncodable, decode-encode_universal}
use iso8583paymentsengine.Simulator.Bank.{
  response_code_for, response_of_class, process_bank_rules, answer,
}

-- The answer to a purchase.
abbrev pub purchase_response : UniversalPaymentEvent → UniversalPaymentEvent
purchase_response e = record e { mti = codes "0210"; response_code = response_code_for e }

decode-encode_router :
    (d : DialectRouter) (e : UniversalPaymentEvent)
    → IsEncodable e
    → (encode d e >>= decode d) ≡ ok e
unfolding encode decode
decode-encode_router base24 e h = decode-encode_universal e h
decode-encode_router connex e h = decode-encode_universal e h

response_code_for-IsText : (e : UniversalPaymentEvent) → IsText 2 (response_code_for e)
unfolding response_code_for
response_code_for-IsText e =
    if_cases (IsText 2) (ltb 50000 e.amount) (λ _. (ground arith, inr refl))
      (λ _.
        if_cases (IsText 2) (bytes_eq (drop (length e.fpan - 4) e.fpan) (codes "9999"))
          (λ _. (ground arith, inr refl)) (λ _. (ground arith, inr refl)))

purchase_response-IsEncodable :
    (e : UniversalPaymentEvent)
    → IsEncodable e
    → e.message_class ≡ financial
    → e.is_reversal ≡ false
    → IsEncodable (purchase_response e)
unfolding blank_event is_reversal_mti class_of_mti bytes_eq
purchase_response-IsEncodable e h c v = record {
  mti_length = refl;
  fpan_length = h.fpan_length;
  fits = record {
    processing_code_text = h.fits.processing_code_text;
    amount_bound = h.fits.amount_bound;
    stan_text = h.fits.stan_text;
    local_time_text = h.fits.local_time_text;
    local_date_text = h.fits.local_date_text;
    acquirer_id_length = h.fits.acquirer_id_length;
    rrn_text = h.fits.rrn_text;
    response_code_text = response_code_for-IsText e;
  };
  cryptogram = h.cryptogram;
  pin_block_length = h.pin_block_length;
  derived =
      ap (λ m. record (purchase_response e) { message_class = m }) c
      ∙ (ap (λ b. record (purchase_response e) { message_class = financial; is_reversal = b }) v
          ∙ ap
              (λ (x : UniversalPaymentEvent). record x {
                mti = codes "0210";
                response_code = response_code_for e;
                message_class = financial;
                is_reversal = false;
              })
              h.derived);
}

-- What is encoded and decoded again was encoded.
encoded-ok :
    (d : DialectRouter) (e : UniversalPaymentEvent) (o : Outcome Bytes)
    → (o >>= decode d) ≡ ok e
    → (b : Bytes) × (o ≡ ok b) × (decode d b ≡ ok e)
encoded-ok d e (ok b) h = (b, refl, h)
encoded-ok d e (err x) h = cc h
encoded-ok d e panic h = cc h

process_bank_rules-financial :
    (d : DialectRouter) (e : UniversalPaymentEvent) (b : Bytes)
    → e.message_class ≡ financial
    → encode d (purchase_response e) ≡ ok b
    → process_bank_rules e d ≡ some b
unfolding process_bank_rules
process_bank_rules-financial d e b c h =
    ap
      (λ m.
        Base.◌>>=◌ (response_of_class m e) (λ r. elim (encode d r) [ ok x ↦ some x | _ ↦ none ]))
      c
    ∙ ap (λ (o : Outcome Bytes). elim o [ ok x ↦ some x | _ ↦ none ]) h

answer-financial :
    (d : DialectRouter) (e : UniversalPaymentEvent) (payload b : Bytes)
    → e.message_class ≡ financial
    → decode d payload ≡ ok e
    → encode d (purchase_response e) ≡ ok b
    → answer d payload ≡ ok (some b)
unfolding answer
answer-financial d e payload b c read written =
    ap
      (λ (o : Outcome UniversalPaymentEvent). elim o [
        | ok tx ↦ ok (process_bank_rules tx d)
        | err _ ↦ ok none
        | panic ↦ panic
      ])
      read
    ∙ ap ok (process_bank_rules-financial d e b c written)

-- A purchase that a message can carry and that is no reversal, written by the switch in the dialect of a
-- bank. The bank answers it, and the switch reads in the answer the event itself, with MTI 0210 and with
-- response code 51 if its amount is above 50000, 59 if it is not and the PAN ends with 9999, and 00
-- otherwise.
pub answer-purchase :
    (d : DialectRouter) (e : UniversalPaymentEvent)
    → IsEncodable e
    → e.message_class ≡ financial
    → e.is_reversal ≡ false
    → (encode d e >>= answer d >>= λ o. elim o [ none ↦ panic | some reply ↦ decode d reply ])
      ≡ ok (purchase_response e)
answer-purchase d e h c v =
    let (b, eb, db) = encoded-ok d e (encode d e) (decode-encode_router d e h) in
    let r = purchase_response e in
    let (b', eb', db') =
      encoded-ok d r (encode d r)
        (decode-encode_router d r (purchase_response-IsEncodable e h c v)) in
    rw (eb) (rw (answer-financial d e b b' c db eb') db')
