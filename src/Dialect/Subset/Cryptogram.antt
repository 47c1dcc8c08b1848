-- ===== src/Dialect/Subset/Cryptogram.antt =====
-- Field 48 as the universal and the standard dialect have it: the cryptogram of a tokenized payment.
use iso8583paymentsengine.Base.{
  ℕ, ◌+◌, ◌≤◌, ◌≡◌, refl, sym, ap, ◌∙◌, Bool, true, false, Option, none, some, [], ◌++◌,
  if◌then◌else◌, length, length-append, arith,
}
use iso8583paymentsengine.Base.Text.{Bytes, codes, IsAscii, starts_with}
use iso8583paymentsengine.Base.Utf8.{from_utf8_lossy-IsAscii}
use iso8583paymentsengine.Base.Digits.{fixed_digits, length-fixed_digits}
use iso8583paymentsengine.Canonical.{UniversalPaymentEvent}
use iso8583paymentsengine.Dialect.Fields.{Outcome, ok, ◌>>=◌, read_lllvar, read_var, write_lllvar}
use iso8583paymentsengine.Dialect.Fields.Written.{read_var-append}
use iso8583paymentsengine.Dialect.Event.{
  Frame, write_if, write_some, store_private_data, store_cryptogram,
}
use iso8583paymentsengine.Dialect.Subset.{Cursor}
use iso8583paymentsengine.Dialect.Subset.Plan.{Reads}
use iso8583paymentsengine.Dialect.Subset.Lays.{Lays, Lays-if}
use iso8583paymentsengine.Dialect.Subset.Steps.{write_lllvar-digits}

module _ (round : Bytes → ℕ → Cursor → Outcome Cursor)
    (arm : (raw : Bytes) (tx : UniversalPaymentEvent) (offset : ℕ)
      → round raw 48 (tx, offset) ≡ (
          read_lllvar raw offset >>= λ (bytes, at).
          store_private_data bytes tx >>= λ tx'. ok (tx', at))) where
  -- Field 48 without a score: the cryptogram, which only a tokenized payment has.
  cryptogram-Reads :
      (t : Bytes)
      → IsAscii t
      → length t ≤ 999
      → starts_with (codes "RSK:") t ≡ false
      → Reads round (record { field = 48; bytes = write_lllvar t; store = store_cryptogram t })
  unfolding read_lllvar store_private_data
  cryptogram-Reads t ascii short plain = λ pre rest tx.
      let len = fixed_digits 3 (length t) in
      let raw = pre ++ (write_lllvar t ++ rest) in
      let digits : write_lllvar t ≡ len ++ t = sym (write_lllvar-digits t short) in
      let size : 3 + length t ≡ length (write_lllvar t) =
        omega (arith, ap length digits, length-append len t, length-fixed_digits 3 (length t)) in
      let found : read_var 3 raw (length pre) ≡ ok (t, length pre + length (write_lllvar t)) =
        ap (λ b. read_var 3 (pre ++ (b ++ rest)) (length pre)) digits
        ∙ (read_var-append 3 pre t rest (omega arith) (omega arith) (omega arith)
            ∙ ap (λ n. ok (t, length pre + n)) size) in
      let stored : store_private_data t tx ≡ ok (store_cryptogram t tx) =
        rw (from_utf8_lossy-IsAscii t ascii, plain, store_private_data) refl in
      arm raw tx (length pre)
      ∙ (ap (λ r. r >>= λ (bytes, at). store_private_data bytes tx >>= λ tx'. ok (tx', at)) found
          ∙ ap (λ r. r >>= λ tx'. ok (tx', length pre + length (write_lllvar t))) stored)

  pub Lays-cryptogram :
      (tokenized : Bool) (cryptogram : Option Bytes) {f : Frame} {start now : UniversalPaymentEvent}
      → now.is_tokenized ≡ tokenized
      → now.tavv_cryptogram ≡ none
      → ((t : Bytes)
          → cryptogram ≡ some t
          → (tokenized ≡ true)
            × IsAscii t
            × (length t ≤ 999)
            × (starts_with (codes "RSK:") t ≡ false))
      → Lays round 40 f start now
      → Lays round 49
          (if tokenized then write_some cryptogram 48 write_lllvar f else f)
          start
          (record now { tavv_cryptogram = cryptogram })
  unfolding write_some write_if store_cryptogram
  Lays-cryptogram true (some t) {f} {start} {now} mark unset wf lays =
      let (_, ascii, short, plain) = wf t refl in
      Lays-if round 40 true
        (record { field = 48; bytes = write_lllvar t; store = store_cryptogram t }) lays
        (omega arith) (omega arith) (omega arith)
        (λ _. (cryptogram-Reads t ascii short plain, rw mark refl)) (λ e. cc)
  Lays-cryptogram true none {f} {start} {now} mark unset wf lays =
      Lays-if round 40 false (record { field = 48; bytes = []; store = λ t. t }) lays (omega arith)
        (omega arith) (omega arith) (λ e. cc)
        (λ _. ap (λ o. record now { tavv_cryptogram = o }) unset)
  Lays-cryptogram false none {f} {start} {now} mark unset wf lays =
      Lays-if round 40 false (record { field = 48; bytes = []; store = λ t. t }) lays (omega arith)
        (omega arith) (omega arith) (λ e. cc)
        (λ _. ap (λ o. record now { tavv_cryptogram = o }) unset)
  Lays-cryptogram false (some t) mark unset wf lays = let off : false ≡ true = (wf t refl).0 in cc
