-- ===== src/Dialect/Subset/Message.antt =====
-- A whole message with one bitmap: what the parsers read of the MTI, the bitmap and the payload that the
-- builders put behind each other.
use mathlib.Core.List.{append_assoc}
use iso8583paymentsengine.Base.{
  ℕ, ◌+◌, ◌≤◌, ◌≡◌, refl, sym, ap, ◌∙◌, Bool, true, false, ◌++◌, [], ltb, leb, if◌then◌else◌,
  length, take-all, length-append, arith,
}
use iso8583paymentsengine.Base.Text.{Bytes}
use iso8583paymentsengine.Canonical.{UniversalPaymentEvent}
use iso8583paymentsengine.Dialect.Fields.{
  Outcome, ok, err, ◌>>=◌, length_error, read_fixed, is_bit_set,
}
use iso8583paymentsengine.Dialect.Fields.Written.{read_fixed-append}
use iso8583paymentsengine.Dialect.Event.{Frame, response_mti}
use iso8583paymentsengine.Dialect.Subset.{Cursor, for_fields}
use iso8583paymentsengine.Dialect.Subset.Lays.{Lays, for_fields-Lays}

pub response_mti_whole : (e : UniversalPaymentEvent) → length e.mti ≡ 4 → response_mti e ≡ e.mti
unfolding response_mti
response_mti_whole e four =
    let long : leb 4 (length e.mti) ≡ true = ground arith in
    rw (long, take-all 4 e.mti (omega arith)) refl

module _ (round : Bytes → ℕ → Cursor → Outcome Cursor) where
  -- The three parts of a message, for a loop that takes the bits of the bitmap as they are.
  pub record Parts (mti : Bytes) (f : Frame) (start e : UniversalPaymentEvent) (is_set : ℕ → Bool)
      : Type 0 where
    pub long : ltb (length (mti ++ (f.bitmap ++ f.payload))) 12 ≡ false
    pub first : read_fixed (mti ++ (f.bitmap ++ f.payload)) 0 4 ≡ ok (mti, 4)
    pub second : read_fixed (mti ++ (f.bitmap ++ f.payload)) 4 8 ≡ ok (f.bitmap, 12)
    pub loop :
        for_fields is_set (round (mti ++ (f.bitmap ++ f.payload))) 64 1 (start, 12)
        ≡ ok (e, length (mti ++ (f.bitmap ++ f.payload)))

  pub Lays-Parts :
      (is_set : ℕ → Bool) (mti : Bytes) (bound : ℕ) {f : Frame} {start e : UniversalPaymentEvent}
      → ((g : ℕ) → 1 ≤ g → g ≤ 64 → is_set g ≡ is_bit_set f.bitmap g)
      → length mti ≡ 4
      → bound ≤ 65
      → Lays round bound f start e
      → Parts mti f start e is_set
  Lays-Parts is_set mti bound {f} {start} {e} same four le h =
      let bits = f.bitmap in
      let rest = f.payload in
      let raw = mti ++ (bits ++ rest) in
      let eight = h.bitmap.0 in
      let at : length (mti ++ bits) ≡ 12 = omega (arith, length-append mti bits, four, eight) in
      let whole = append_assoc mti bits rest in
      record {
        long =
            ground (arith, length-append mti (bits ++ rest), length-append bits rest, four, eight);
        first =
            ap (read_fixed raw 0) (sym four)
            ∙ (read_fixed-append [] mti (bits ++ rest) ∙ ap (λ n. ok (mti, 0 + n)) four);
        second =
            ap (λ n. read_fixed raw n 8) (sym four)
            ∙ (ap (read_fixed raw (length mti)) (sym eight)
                ∙ (read_fixed-append mti bits rest
                    ∙ (ap (λ n. ok (bits, n + length bits)) four
                        ∙ ap (λ n. ok (bits, 4 + n)) eight)));
        loop =
            ap (λ n. for_fields is_set (round raw) 64 1 (start, n)) (sym at)
            ∙ (ap (λ r. for_fields is_set (round r) 64 1 (start, length (mti ++ bits))) (sym whole)
                ∙ (for_fields-Lays round is_set bound (mti ++ bits) same h le
                    ∙ ap (λ r. ok (e, length r)) whole));
      }

module _ (round : Bytes → ℕ → Cursor → Outcome Cursor) (start : Bytes → UniversalPaymentEvent) where
  -- The shape of the parsers with one bitmap.
  abbrev pub parse_with : Bytes → Outcome UniversalPaymentEvent
  parse_with raw =
      if ltb (length raw) 12
      then err length_error
      else (read_fixed raw 0 4 >>= λ (mti, at). read_fixed raw at 8 >>= λ (bitmap, at').
          for_fields (is_bit_set bitmap) (round raw) 64 1 (start mti, at') >>= λ (tx, _). ok tx)

  pub parse_with-Lays :
      (mti : Bytes) (bound : ℕ) {f : Frame} {e : UniversalPaymentEvent}
      → length mti ≡ 4
      → bound ≤ 65
      → Lays round bound f (start mti) e
      → parse_with (mti ++ (f.bitmap ++ f.payload)) ≡ ok e
  parse_with-Lays mti bound {f} {e} four le h =
      let p = Lays-Parts round (is_bit_set f.bitmap) mti bound (λ g a b. refl) four le h in
      rw (p.long, p.first, p.second, p.loop) refl
