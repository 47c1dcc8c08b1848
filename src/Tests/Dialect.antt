-- ===== src/Tests/Dialect.antt =====
-- Runs of the dialects.
use mathlib.Core.Path.{subst}
use mathlib.Core.Option.{some-injective}
use iso8583paymentsengine.Base.{true, inl, inr, some, length, ◌≤◌, ◌≡◌, refl, arith}
use iso8583paymentsengine.Base.Text.{IsAscii, codes, bytes_eq}
use iso8583paymentsengine.Canonical.{UniversalPaymentEvent}
use iso8583paymentsengine.Canonical.Convert.{class_of_mti}
use iso8583paymentsengine.Dialect.Fields.{ok, ◌>>=◌}
use iso8583paymentsengine.Dialect.Event.{blank_event, is_reversal_mti}
use iso8583paymentsengine.Dialect.Subset.Common.{FitsCommon}
use iso8583paymentsengine.Dialect.Universal.{universal_encode, universal_decode}
use iso8583paymentsengine.Dialect.Universal.RoundTrip.{IsEncodable, decode-encode_universal}
use iso8583paymentsengine.Dialect.Standard as Standard
use iso8583paymentsengine.Dialect.Standard.RoundTrip.{parse-build_standard}
use iso8583paymentsengine.Dialect.Interac as Interac
use iso8583paymentsengine.Dialect.Interac.RoundTrip.{IsBuildable, parse-build_interac}
use iso8583paymentsengine.Dialect.UkFps as UkFps
use iso8583paymentsengine.Dialect.UkFps.RoundTrip.{IsFasterPayment, parse-build_uk_fps}
use iso8583paymentsengine.Tests.Samples.{sale}

sale-FitsCommon : FitsCommon sale
sale-FitsCommon = record {
  processing_code_text = (ground arith, inr refl);
  amount_bound = omega arith;
  stan_text = (ground arith, inr refl);
  local_time_text = (ground arith, inr refl);
  local_date_text = (ground arith, inr refl);
  acquirer_id_length = omega arith;
  rrn_text = (ground arith, inr refl);
  response_code_text = (ground arith, inl refl);
}

pub sale-IsEncodable : IsEncodable sale
unfolding blank_event is_reversal_mti class_of_mti bytes_eq
sale-IsEncodable = record {
  mti_length = refl;
  fpan_length = omega arith;
  fits = sale-FitsCommon;
  cryptogram = λ t e. cc;
  pin_block_length = inl refl;
  derived = refl;
}

decode-encode_universal_example : (universal_encode sale >>= universal_decode) ≡ ok sale
decode-encode_universal_example = decode-encode_universal sale sale-IsEncodable

parse-build_standard_example : Standard.parse (Standard.build_response sale) ≡ ok sale
parse-build_standard_example = parse-build_standard sale sale-IsEncodable

-- The sale with the clearing flag of its MTI and no settlement data.
abbrev instant_sale : UniversalPaymentEvent
instant_sale = record sale { requires_instant_clearing = true }

instant_sale-IsBuildable : IsBuildable instant_sale
unfolding blank_event class_of_mti bytes_eq
instant_sale-IsBuildable = record {
  mti_length = refl;
  fpan_length = omega arith;
  fits = record {
    processing_code_text = (ground arith, inr refl);
    amount_bound = omega arith;
    stan_text = (ground arith, inr refl);
    local_time_text = (ground arith, inr refl);
    local_date_text = (ground arith, inr refl);
    acquirer_id_length = omega arith;
    rrn_text = (ground arith, inr refl);
    response_code_text = (ground arith, inl refl);
  };
  cryptogram = λ t e. cc;
  pin_block_length = inl refl;
  settlement_data = λ t e. cc;
  derived = refl;
}

parse-build_interac_example : Interac.parse (Interac.build_response instant_sale) ≡ ok instant_sale
parse-build_interac_example = parse-build_interac instant_sale instant_sale-IsBuildable

-- A faster payment between two accounts, which takes both bitmaps.
abbrev account_sale : UniversalPaymentEvent
account_sale = record sale {
  fpan = codes "UKFPS-20415312345678";
  source_account = some (codes "20415312345678");
  destination_account = some (codes "40478499887766");
}

account_sale-IsFasterPayment : IsFasterPayment account_sale
unfolding blank_event class_of_mti bytes_eq
account_sale-IsFasterPayment = record {
  mti_length = refl;
  fits = record {
    processing_code_text = (ground arith, inr refl);
    amount_bound = omega arith;
    stan_text = (ground arith, inr refl);
    local_time_text = (ground arith, inr refl);
    local_date_text = (ground arith, inr refl);
    acquirer_id_length = omega arith;
    rrn_text = (ground arith, inr refl);
    response_code_text = (ground arith, inl refl);
  };
  pin_block_length = inl refl;
  source = λ t e.
      subst (λ s. IsAscii s × (length s ≤ 99)) (some-injective _ _ e) (ground arith, omega arith);
  destination = λ t e.
      subst (λ s. IsAscii s × (length s ≤ 99)) (some-injective _ _ e) (ground arith, omega arith);
  derived = refl;
}

parse-build_uk_fps_example : UkFps.parse (UkFps.build_response account_sale) ≡ ok account_sale
parse-build_uk_fps_example = parse-build_uk_fps account_sale account_sale-IsFasterPayment
