-- ===== src/Edge/Egress/Delivery.antt =====
-- What becomes of an advice of edge-egress/src/client.rs that comes while its bank cannot be reached.
use iso8583paymentsengine.Base.{
  ◌≡◌, refl, ap, ◌∙◌, Bool, true, false, Option, none, some, List, [], ◌∷◌, ◌++◌, ◌⊎◌,
  if◌then◌else◌, Bool-cases, inl, inr,
}
use iso8583paymentsengine.Base.Text.{Bytes}
use iso8583paymentsengine.Base.Dict.{
  Dict, lookup, insert, IsDict, lookup-insert_self, insert-IsDict,
}
use iso8583paymentsengine.Canonical.{Transaction, UniversalPaymentEvent}
use iso8583paymentsengine.Canonical.Convert.{to_pb, from_pb}
use iso8583paymentsengine.Switch.State.{TransactionContext}
use iso8583paymentsengine.Edge.Frame as Frame
use iso8583paymentsengine.Edge.Egress.{
  UpstreamClient, is_advice, saf_key, payload_of, row_frame, is_delivered, saf_flush, store_advice,
  offline_pass,
}
use iso8583paymentsengine.Edge.Egress.Stored.{
  undelivered, frames_of, IsSent, IsSent-append_left, IsSent-append_right, frames_of-IsSent,
  undelivered-IsDict, undelivered-none, lookup-undelivered, saf_flush-undelivered,
}

-- A sweep: whether the bank can be reached, and which rows the socket takes.
abbrev pub Sweep : Type 0
Sweep = Bool × (Bytes → Bool)

-- At least one of the sweeps reaches the bank and writes the row of the key.
abbrev pub Reaches : Bytes → List Sweep → Type 0
Reaches k [] = ⊥
Reaches k ((connects, writes) ∷ rest) = ((connects ≡ true) × (writes k ≡ true)) ⊎ Reaches k rest

abbrev Delivered : Bytes → Bytes → UpstreamClient × Dict Bytes → Type 0
Delivered k frame s = (lookup k s.1 ≡ none) × IsSent frame s.0.sent

module _ (decode : Bytes → Option Transaction) where
  abbrev pub sweeps : List Sweep → UpstreamClient × Dict Bytes → UpstreamClient × Dict Bytes
  sweeps [] s = s
  sweeps ((connects, writes) ∷ rest) s = sweeps rest (saf_flush decode connects writes s)

  sweep-Delivered :
      (k frame : Bytes) (connects : Bool) (writes : Bytes → Bool) (c : UpstreamClient)
      (db : Dict Bytes)
      → IsDict db
      → Delivered k frame (c, db)
      → IsDict (saf_flush decode connects writes (c, db)).1
        × Delivered k frame (saf_flush decode connects writes (c, db))
  sweep-Delivered k frame true writes c db d h =
      rw (saf_flush-undelivered decode writes true c db d) (
        undelivered-IsDict decode writes db d,
        (
          undelivered-none decode writes k db h.0,
          IsSent-append_left frame c.sent (frames_of decode writes db) h.1,
        ),
      )
  sweep-Delivered k frame false writes c db d h =
      rw (saf_flush-undelivered decode writes false c db d) (d, h)

  sweeps-Delivered :
      (k frame : Bytes) (later : List Sweep) (c : UpstreamClient) (db : Dict Bytes)
      → IsDict db
      → Delivered k frame (c, db)
      → Delivered k frame (sweeps later (c, db))
  sweeps-Delivered k frame [] c db d h = h
  sweeps-Delivered k frame ((connects, writes) ∷ later) c db d h =
      let (kept, done) = sweep-Delivered k frame connects writes c db d h in
      let s = saf_flush decode connects writes (c, db) in
      sweeps-Delivered k frame later s.0 s.1 kept done

  is_delivered-written :
      (k val frame : Bytes) (writes : Bytes → Bool)
      → row_frame decode val ≡ some frame
      → is_delivered decode writes (k, val) ≡ writes k
  is_delivered-written k val frame writes f =
      ap (λ (o : Option Bytes). elim o [ none ↦ false | some _ ↦ writes k ]) f

  -- A stored row whose bank is reached in one of the sweeps.
  stored-Delivered :
      (k val frame : Bytes) (later : List Sweep) (c : UpstreamClient) (db : Dict Bytes)
      → IsDict db
      → lookup k db ≡ some val
      → row_frame decode val ≡ some frame
      → Reaches k later
      → Delivered k frame (sweeps later (c, db))
  stored-Delivered k val frame [] c db d at f r = absurd r
  stored-Delivered k val frame ((false, writes) ∷ later) c db d at f (inl r) = cc (r.0)
  stored-Delivered k val frame ((false, writes) ∷ later) c db d at f (inr r) =
      rw (saf_flush-undelivered decode writes false c db d, sweeps)
        (stored-Delivered k val frame later c db d at f r)
  stored-Delivered k val frame ((true, writes) ∷ later) c db d at f r =
      let c' : UpstreamClient = record c { sent = c.sent ++ frames_of decode writes db } in
      let left = undelivered decode writes db in
      let d' = undelivered-IsDict decode writes db d in
      let after = lookup-undelivered decode writes k val db d at in
      rw (saf_flush-undelivered decode writes true c db d, sweeps)
        (elim (Bool-cases (writes k)) [
          | inl w ↦
              let out : is_delivered decode writes (k, val) ≡ true =
                is_delivered-written k val frame writes f ∙ w in
              sweeps-Delivered k frame later c' left d' (
                after ∙ ap (λ b. if b then none else some val) out,
                IsSent-append_right frame c.sent (frames_of decode writes db)
                    (frames_of-IsSent decode writes k val frame db at f w),
              )
          | inr w ↦
              let out : is_delivered decode writes (k, val) ≡ false =
                is_delivered-written k val frame writes f ∙ w in
              let more : Reaches k later = elim r [ inl now ↦ cc (now.1, w) | inr rest ↦ rest ] in
              stored-Delivered k val frame later c' left d'
                (after ∙ ap (λ b. if b then none else some val) out) f more
        ])

-- The message that a stored advice is sent as: what its protobuf form keeps of it.
abbrev pub advice_frame : UniversalPaymentEvent → Bytes
advice_frame tx = Frame.encode (payload_of (from_pb (to_pb tx))) []

module _ (encode : Transaction → Bytes) (decode : Bytes → Option Transaction) where
  offline_pass-stores :
      (c : UpstreamClient) (db : Dict Bytes) (ctx : TransactionContext)
      (rest : List TransactionContext)
      → c.rx ≡ ctx ∷ rest
      → is_advice ctx.transaction ≡ true
      → offline_pass encode (c, db) ≡ (
        record c { rx = rest },
        insert (saf_key ctx.transaction) (encode (to_pb ctx.transaction)) db,
      )
  unfolding offline_pass store_advice
  offline_pass-stores c db ctx rest next advice =
      rw (next, offline_pass) (rw (advice, store_advice) refl)

  row_frame-advice :
      (tx : UniversalPaymentEvent)
      → decode (encode (to_pb tx)) ≡ some (to_pb tx)
      → row_frame decode (encode (to_pb tx)) ≡ some (advice_frame tx)
  unfolding row_frame
  row_frame-advice tx round_trip = rw (round_trip, row_frame) refl

  -- An advice (MTI 0420 or 0220) that comes while the bank cannot be reached is sent in the end, as the
  -- message that its protobuf form makes, and then it is in the store no more: if the decoder inverts
  -- the encoder on it, nothing else is stored meanwhile, and at least one of the sweeps that follow
  -- reaches the bank and writes its row, however many fail before that.
  pub advice_delivered :
      (c : UpstreamClient) (db : Dict Bytes) (ctx : TransactionContext)
      (rest : List TransactionContext) (later : List Sweep)
      → IsDict db
      → c.rx ≡ ctx ∷ rest
      → is_advice ctx.transaction ≡ true
      → decode (encode (to_pb ctx.transaction)) ≡ some (to_pb ctx.transaction)
      → Reaches (saf_key ctx.transaction) later
      → (let s = sweeps decode later (offline_pass encode (c, db)) in
          (lookup (saf_key ctx.transaction) s.1 ≡ none)
          × IsSent (advice_frame ctx.transaction) s.0.sent)
  advice_delivered c db ctx rest later d next advice round_trip reaches =
      let k = saf_key ctx.transaction in
      let val = encode (to_pb ctx.transaction) in
      rw (offline_pass-stores c db ctx rest next advice) (
        stored-Delivered decode k val (advice_frame ctx.transaction) later (record c { rx = rest })
          (insert k val db) (insert-IsDict k val db d) (lookup-insert_self k val db)
          (row_frame-advice ctx.transaction round_trip) reaches)

  -- Two clients that share the store, as the daemon starts them: an advice that comes to the first while
  -- its bank cannot be reached is sent to the bank of the second, as soon as a sweep of the second reaches
  -- that one and writes the row; nothing is sent to the first bank, and the row is gone.
  pub shared_store-misdelivered :
      (c other : UpstreamClient) (db : Dict Bytes) (ctx : TransactionContext)
      (rest : List TransactionContext) (writes : Bytes → Bool)
      → IsDict db
      → c.rx ≡ ctx ∷ rest
      → is_advice ctx.transaction ≡ true
      → decode (encode (to_pb ctx.transaction)) ≡ some (to_pb ctx.transaction)
      → writes (saf_key ctx.transaction) ≡ true
      → (let (c', db') = offline_pass encode (c, db) in
          let (other', db'') = saf_flush decode true writes (other, db') in
          (c'.sent ≡ c.sent)
          × IsSent (advice_frame ctx.transaction) other'.sent
          × (lookup (saf_key ctx.transaction) db'' ≡ none))
  shared_store-misdelivered c other db ctx rest writes d next advice round_trip written =
      let k = saf_key ctx.transaction in
      let val = encode (to_pb ctx.transaction) in
      let done =
        stored-Delivered decode k val (advice_frame ctx.transaction) ((true, writes) ∷ []) other
          (insert k val db) (insert-IsDict k val db d) (lookup-insert_self k val db)
          (row_frame-advice ctx.transaction round_trip) (inl (refl, written)) in
      rw (offline_pass-stores c db ctx rest next advice) (refl, done.1, done.0)
