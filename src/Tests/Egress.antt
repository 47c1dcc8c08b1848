-- ===== src/Tests/Egress.antt =====
-- A run of a client whose bank comes back only after a while.
use iso8583paymentsengine.Base.{◌≡◌, refl, Bool, true, false, none, List, [], ◌∷◌, ◌++◌, inl, inr}
use iso8583paymentsengine.Base.Text.{Bytes, codes, bytes_eq}
use iso8583paymentsengine.Base.Utf8.{from_utf8_lossy}
use iso8583paymentsengine.Base.Dict.{Dict, lookup}
use iso8583paymentsengine.Canonical.{UniversalPaymentEvent}
use iso8583paymentsengine.Canonical.Convert.{to_pb}
use iso8583paymentsengine.Switch.State.{TransactionContext}
use iso8583paymentsengine.Edge.Egress.{UpstreamClient, is_advice, saf_key, saf_flush, offline_pass}
use iso8583paymentsengine.Edge.Egress.Stored.{undelivered, frames_of, IsSent, saf_flush-undelivered}
use iso8583paymentsengine.Edge.Egress.Delivery.{
  Sweep, sweeps, advice_frame, advice_delivered, shared_store-misdelivered,
}
use iso8583paymentsengine.Tests.Samples.{sale}
use iso8583paymentsengine.Tests.Log.{sample_encode, sample_decode, decode_sample}

abbrev advice : UniversalPaymentEvent
advice = record sale { mti = codes "0420" }

abbrev waiting : TransactionContext
waiting = record { transaction = advice; responder = none }

abbrev visa : UpstreamClient
visa = record { rx = waiting ∷ []; sent = [] }

abbrev mastercard : UpstreamClient
mastercard = record { rx = []; sent = [] }

-- A store with an advice and with a row that is no transaction.
abbrev stored : Dict Bytes
stored = (codes "000009-000000000009", sample_encode (to_pb advice)) ∷ (codes "1-2", []) ∷ []

abbrev takes_all : Bytes → Bool
takes_all k = true

abbrev takes_none : Bytes → Bool
takes_none k = false

saf_flush-undelivered_example : saf_flush sample_decode true takes_all (visa, stored) ≡ (
  record visa { sent = visa.sent ++ frames_of sample_decode takes_all stored },
  undelivered sample_decode takes_all stored,
)
unfolding lookup bytes_eq
saf_flush-undelivered_example =
    saf_flush-undelivered sample_decode takes_all true visa stored (refl, (refl, tt))

-- The bank is away, then it breaks the connection off, and then it takes everything.
abbrev bank_returns : List Sweep
bank_returns = (false, takes_all) ∷ (true, takes_none) ∷ (true, takes_all) ∷ []

advice_delivered_example :
    let s = sweeps sample_decode bank_returns (offline_pass sample_encode (visa, [])) in
    (lookup (saf_key advice) s.1 ≡ none) × IsSent (advice_frame advice) s.0.sent
unfolding is_advice from_utf8_lossy bytes_eq
advice_delivered_example =
    advice_delivered sample_encode sample_decode visa [] waiting [] bank_returns tt refl refl
      (decode_sample (to_pb advice)) (inr (inr (inl (refl, refl))))

shared_store-misdelivered_example :
    let (c', db') = offline_pass sample_encode (visa, []) in
    let (other', db'') = saf_flush sample_decode true takes_all (mastercard, db') in
    (c'.sent ≡ [])
    × IsSent (advice_frame advice) other'.sent
    × (lookup (saf_key advice) db'' ≡ none)
unfolding is_advice from_utf8_lossy bytes_eq
shared_store-misdelivered_example =
    shared_store-misdelivered sample_encode sample_decode visa mastercard [] waiting [] takes_all tt
      refl refl (decode_sample (to_pb advice)) refl
