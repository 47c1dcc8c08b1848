-- ===== src/Dialect/Subset/Steps.antt =====
-- One field that a builder writes, as a parser reads it, for every parser whose arm for the field is
-- the one that the parsers share.
use mathlib.Core.Path.{subst}
use iso8583paymentsengine.Base.{
  ℕ, ◌+◌, ◌^◌, ◌≤◌, ◌<◌, ◌≡◌, ◌⊎◌, inl, inr, refl, sym, ap, ◌∙◌, Option, none, some, Bool, true,
  false, not, [], ◌∷◌, ◌++◌, ltb, length, length-append, arith,
}
use iso8583paymentsengine.Base.Text.{Bytes, codes, is_empty}
use iso8583paymentsengine.Base.Utf8.{from_utf8_lossy, from_utf8_lossy-IsAscii}
use iso8583paymentsengine.Base.Digits.{
  format_padded, fixed_digits, length-fixed_digits, fixed_digits-IsAscii,
}
use iso8583paymentsengine.Canonical.{UniversalPaymentEvent}
use iso8583paymentsengine.Dialect.Fields.{
  Outcome, ok, read_fixed, read_llvar, read_lllvar, read_var, write_fixed, write_llvar,
  write_lllvar,
}
use iso8583paymentsengine.Dialect.Fields.Written.{
  read_fixed-append, read_var-append, write_fixed_exact, parse_uint-fixed_digits,
}
use iso8583paymentsengine.Dialect.Event.{
  Frame, write_if, write_some, has_amount, parse_amount, store_entry_mode,
}
use iso8583paymentsengine.Dialect.Subset.{Cursor, store_read}
use iso8583paymentsengine.Dialect.Subset.Plan.{Reads}
use iso8583paymentsengine.Dialect.Subset.Lays.{Lays, Lays-if}

abbrev pub Store : Type 0
Store = Bytes → UniversalPaymentEvent → UniversalPaymentEvent

pub write_llvar-digits :
    (v : Bytes) → length v ≤ 99 → fixed_digits 2 (length v) ++ v ≡ write_llvar v
unfolding write_llvar format_padded
write_llvar-digits v h =
    let short : ltb 99 (length v) ≡ false = ground arith in
    let two : ltb (length v) 100 ≡ true = ground arith in rw (short, two) refl

pub write_lllvar-digits :
    (v : Bytes) → length v ≤ 999 → fixed_digits 3 (length v) ++ v ≡ write_lllvar v
unfolding write_lllvar format_padded
write_lllvar-digits v h =
    let short : ltb 999 (length v) ≡ false = ground arith in
    let three : ltb (length v) 1000 ≡ true = ground arith in rw (short, three) refl

pub is_empty-nil : (v : Bytes) → not (is_empty v) ≡ false → v ≡ []
is_empty-nil [] e = refl
is_empty-nil (b ∷ v) e = cc

digits_12 : (n : ℕ) → n < 10 ^ 12 → format_padded 12 n ≡ fixed_digits 12 n
unfolding format_padded
digits_12 n h = let small : ltb n (10 ^ 12) ≡ true = ground arith in rw small refl

parse_amount-format_padded : (n : ℕ) → n < 10 ^ 12 → parse_amount (format_padded 12 n) ≡ n
unfolding parse_amount
parse_amount-format_padded n h =
    let s = fixed_digits 12 n in
    let read : parse_amount s ≡ n =
      rw
        (
          from_utf8_lossy-IsAscii s (fixed_digits-IsAscii 12 n),
          parse_uint-fixed_digits (2 ^ 64) 12 n (omega arith) h (omega arith),
          parse_amount,
        )
        refl in
    ap parse_amount (digits_12 n h) ∙ read

pub has_amount-zero : (e : UniversalPaymentEvent) → has_amount e ≡ false → e.amount ≡ 0
unfolding has_amount
has_amount-zero e h = ground arith

module _ (round : Bytes → ℕ → Cursor → Outcome Cursor) where
  -- A field of fixed length is read as it was written.
  pub fixed-Reads :
      (field len : ℕ) (v : Bytes) (store : Bytes → UniversalPaymentEvent → UniversalPaymentEvent)
      → ((raw : Bytes) (tx : UniversalPaymentEvent) (offset : ℕ)
          → round raw field (tx, offset) ≡ store_read store tx (read_fixed raw offset len))
      → length v ≡ len
      → Reads round (record { field = field; bytes = v; store = store v })
  unfolding store_read
  fixed-Reads field len v store arm e = λ pre rest tx.
      let raw = pre ++ (v ++ rest) in
      let got : read_fixed raw (length pre) len ≡ ok (v, length pre + length v) =
        ap (read_fixed raw (length pre)) (sym e) ∙ read_fixed-append pre v rest in
      arm raw tx (length pre) ∙ ap (store_read store tx) got

  -- A field behind its length is read as it was written.
  pub var-Reads :
      (field w : ℕ) (v : Bytes) (store : Bytes → UniversalPaymentEvent → UniversalPaymentEvent)
      → ((raw : Bytes) (tx : UniversalPaymentEvent) (offset : ℕ)
          → round raw field (tx, offset) ≡ store_read store tx (read_var w raw offset))
      → 1 ≤ w
      → length v < 10 ^ w
      → length v < 2 ^ 64
      → Reads round
          (record { field = field; bytes = fixed_digits w (length v) ++ v; store = store v })
  unfolding store_read
  var-Reads field w v store arm one h k = λ pre rest tx.
      let raw = pre ++ ((fixed_digits w (length v) ++ v) ++ rest) in
      let size : length (fixed_digits w (length v) ++ v) ≡ w + length v =
        omega
          (arith, length-append (fixed_digits w (length v)) v, length-fixed_digits w (length v)) in
      arm raw tx (length pre)
      ∙ (ap (store_read store tx) (read_var-append w pre v rest one h k)
          ∙ ap (λ n. ok (store v tx, length pre + n)) (sym size))

  -- The `match` arm of a field, for a reader.
  abbrev pub Arm : ℕ → Store → (Bytes → ℕ → Outcome (Bytes × ℕ)) → Type 0
  Arm field store read =
      (raw : Bytes) (tx : UniversalPaymentEvent) (offset : ℕ)
      → round raw field (tx, offset) ≡ store_read store tx (read raw offset)

  -- A builder's step for a text of fixed length, written if it is there.
  pub Lays-fixed :
      (field len pad : ℕ) (right : Bool) (v : Bytes) (store : Store) {bound : ℕ} {f : Frame}
      {start now next : UniversalPaymentEvent}
      → Arm field store (λ raw offset. read_fixed raw offset len)
      → (v ≡ []) ⊎ (length v ≡ len)
      → store v now ≡ next
      → (v ≡ [] → now ≡ next)
      → 2 ≤ bound
      → bound ≤ field
      → field ≤ 64
      → Lays round bound f start now
      → Lays round
          (field + 1)
          (write_if (not (is_empty v)) field (write_fixed v len pad right) f)
          start
          next
  Lays-fixed field len pad right v store {bound} arm shape there absent one lo hi h =
      Lays-if round bound (not (is_empty v))
        (record { field = field; bytes = write_fixed v len pad right; store = store v }) h one lo hi
        (λ e.
          let size : length v ≡ len = elim shape [ inl z ↦ ground arith | inr n ↦ n ] in
          (
            subst (λ b. Reads round (record { field = field; bytes = b; store = store v }))
                (sym (write_fixed_exact v len pad right size))
                (fixed-Reads field len v store arm size),
            there,
          ))
        (λ e. absent (is_empty-nil v e))

  -- A builder's step for a text behind its length, written if it is there.
  pub Lays-llvar :
      (field : ℕ) (v : Bytes) (store : Store) {bound : ℕ} {f : Frame}
      {start now next : UniversalPaymentEvent}
      → Arm field store read_llvar
      → length v ≤ 99
      → store v now ≡ next
      → (v ≡ [] → now ≡ next)
      → 2 ≤ bound
      → bound ≤ field
      → field ≤ 64
      → Lays round bound f start now
      → Lays round (field + 1) (write_if (not (is_empty v)) field (write_llvar v) f) start next
  unfolding read_llvar
  Lays-llvar field v store {bound} arm short there absent one lo hi h =
      Lays-if round bound (not (is_empty v))
        (record { field = field; bytes = write_llvar v; store = store v }) h one lo hi
        (λ e. (
          subst (λ b. Reads round (record { field = field; bytes = b; store = store v }))
              (write_llvar-digits v short)
              (var-Reads field 2 v store arm (omega arith) (omega arith) (omega arith)),
          there,
        ))
        (λ e. absent (is_empty-nil v e))

  -- Field 4, which a positive amount is never without.
  pub Lays-amount :
      (n : ℕ) (present : Bool) {f : Frame} {start now : UniversalPaymentEvent}
      → Arm 4 (λ b t. record t { amount = parse_amount b }) (λ raw offset. read_fixed raw offset 12)
      → n < 10 ^ 12
      → (present ≡ false → now ≡ record now { amount = n })
      → Lays round 4 f start now
      → Lays round 5
          (write_if present 4 (write_fixed (format_padded 12 n) 12 b'0' false) f)
          start
          (record now { amount = n })
  Lays-amount n present {f} {start} {now} arm h absent lays =
      let v = format_padded 12 n in
      let size : length v ≡ 12 = ap length (digits_12 n h) ∙ length-fixed_digits 12 n in
      let store : Bytes → UniversalPaymentEvent → UniversalPaymentEvent =
        λ b t. record t { amount = parse_amount b } in
      Lays-if round 4 present
        (record { field = 4; bytes = write_fixed v 12 b'0' false; store = store v }) lays
        (omega arith) (omega arith) (omega arith)
        (λ _. (
          subst (λ b. Reads round (record { field = 4; bytes = b; store = store v }))
              (sym (write_fixed_exact v 12 b'0' false size)) (fixed-Reads 4 12 v store arm size),
          ap (λ a. record now { amount = a }) (parse_amount-format_padded n h),
        ))
        absent

  -- Field 22, the mark of a tokenized payment.
  pub Lays-tokenized :
      (tokenized : Bool) {f : Frame} {start now : UniversalPaymentEvent}
      → Arm 22 store_entry_mode (λ raw offset. read_fixed raw offset 3)
      → now.is_tokenized ≡ false
      → Lays round 14 f start now
      → Lays round 23
          (write_if tokenized 22 (write_fixed (codes "071") 3 b'0' false) f)
          start
          (record now { is_tokenized = tokenized })
  unfolding write_fixed store_entry_mode from_utf8_lossy
  Lays-tokenized tokenized {f} {start} {now} arm plain lays =
      let v = codes "071" in
      Lays-if round 14 {next = record now { is_tokenized = tokenized }} tokenized
        (record { field = 22; bytes = v; store = store_entry_mode v }) lays (omega arith)
        (omega arith) (omega arith)
        (λ on. (
          fixed-Reads 22 3 v store_entry_mode arm refl,
          ap (λ b. record now { is_tokenized = b }) (sym on),
        ))
        (λ off. ap (λ b. record now { is_tokenized = b }) (plain ∙ sym off))

  -- A builder's step for a value that may be there, behind a length of three digits.
  pub Lays-some :
      (field : ℕ) (o : Option Bytes) (store : Store) {bound : ℕ} {f : Frame}
      {start now next : UniversalPaymentEvent}
      → Arm field store read_lllvar
      → ((v : Bytes) → o ≡ some v → (length v ≤ 999) × (store v now ≡ next))
      → (o ≡ none → now ≡ next)
      → 2 ≤ bound
      → bound ≤ field
      → field ≤ 64
      → Lays round bound f start now
      → Lays round (field + 1) (write_some o field write_lllvar f) start next
  unfolding write_some write_if read_lllvar
  Lays-some field none store {bound} {next = next} arm there absent two lo hi h =
      Lays-if round bound {next = next} false (record { field = field; bytes = []; store = λ t. t })
        h two lo hi (λ e. cc) (λ _. absent refl)
  Lays-some field (some v) store {bound} arm there absent two lo hi h =
      let (short, stored) = there v refl in
      Lays-if round bound true (record { field = field; bytes = write_lllvar v; store = store v }) h
        two lo hi
        (λ _. (
          subst (λ b. Reads round (record { field = field; bytes = b; store = store v }))
              (write_lllvar-digits v short)
              (var-Reads field 3 v store arm (omega arith) (omega arith) (omega arith)),
          stored,
        ))
        (λ e. cc)
