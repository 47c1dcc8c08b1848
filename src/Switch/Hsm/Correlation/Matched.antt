-- ===== src/Switch/Hsm/Correlation/Matched.antt =====
-- Who gets a response from the reader task of switch-core/src/hsm_client.rs.
use iso8583paymentsengine.Base.{
  ℕ, ◌+◌, ◌≤◌, ◌≡◌, ◌==◌, refl, sym, ap, ◌∙◌, some, List, [], ◌∷◌, ◌++◌, All, All-append,
  if◌then◌else◌, Bool-cases, option_cases, ltb, inl, inr, arith,
}
use iso8583paymentsengine.Base.Text.{Bytes, bytes_eq, bytes_eq_iff}
use iso8583paymentsengine.Base.Dict.{Dict, lookup, insert, remove}
use iso8583paymentsengine.Switch.Hsm.{ThalesMessage, next_header}
use iso8583paymentsengine.Switch.Hsm.Correlation.{
  Waiter, HsmClient, Event, command, gives_up, response, register, read_response, step, run,
  connected,
}

abbrev pub is_call : ℕ → Waiter → ℕ
is_call n w = if w.call_number == n then 1 else 0

abbrev pub waiting : ℕ → Dict Waiter → ℕ
waiting n [] = 0
waiting n ((_, w) ∷ d) = is_call n w + waiting n d

-- How many answers the call of that number got.
abbrev pub answered : ℕ → List (Waiter × ThalesMessage) → ℕ
answered n [] = 0
answered n ((w, _) ∷ l) = is_call n w + answered n l

answered-append :
    (n : ℕ) (l : List (Waiter × ThalesMessage)) (w : Waiter) (m : ThalesMessage)
    → answered n (l ++ ((w, m) ∷ [])) ≡ answered n l + is_call n w
answered-append n [] w m = omega arith
answered-append n ((v, k) ∷ l) w m = omega (arith, answered-append n l w m)

waiting-insert :
    (n : ℕ) (k : Bytes) (w : Waiter) (d : Dict Waiter)
    → waiting n (insert k w d) ≤ waiting n d + is_call n w
unfolding insert
waiting-insert n k w [] = omega arith
waiting-insert n k w ((j, v) ∷ d) = elim (Bool-cases (bytes_eq k j)) [
  | inl e ↦ rw e (omega arith)
  | inr e ↦ rw e (omega (arith, waiting-insert n k w d))
]

waiting-remove_le : (n : ℕ) (k : Bytes) (d : Dict Waiter) → waiting n (remove k d) ≤ waiting n d
unfolding remove
waiting-remove_le n k [] = omega arith
waiting-remove_le n k ((j, v) ∷ d) = elim (Bool-cases (bytes_eq k j)) [
  | inl e ↦ rw e (omega arith)
  | inr e ↦ rw e (omega (arith, waiting-remove_le n k d))
]

waiting-remove :
    (n : ℕ) (k : Bytes) (w : Waiter) (d : Dict Waiter)
    → lookup k d ≡ some w
    → waiting n (remove k d) + is_call n w ≡ waiting n d
unfolding lookup remove
waiting-remove n k w [] h = cc h
waiting-remove n k w ((j, v) ∷ d) h = elim (Bool-cases (bytes_eq k j)) [
  | inl e ↦
      let same : v ≡ w = ground (arith, e) in
      let counts : is_call n v ≡ is_call n w = ap (is_call n) same in rw e (omega (arith, counts))
  | inr e ↦ rw e (omega (arith, waiting-remove n k w d (rw e at h)))
]

-- Each waiter stands under the header of its call.
abbrev IsFiled : Dict Waiter → Type 0
IsFiled [] = Unit
IsFiled ((k, w) ∷ d) = (w.header ≡ k) × IsFiled d

insert-IsFiled :
    (k : Bytes) (w : Waiter) (d : Dict Waiter) → w.header ≡ k → IsFiled d → IsFiled (insert k w d)
unfolding insert
insert-IsFiled k w [] e h = (e, tt)
insert-IsFiled k w ((j, v) ∷ d) e h = elim (Bool-cases (bytes_eq k j)) [
  | inl b ↦ rw b (e, h.1)
  | inr b ↦ rw b (h.0, insert-IsFiled k w d e h.1)
]

remove-IsFiled : (k : Bytes) (d : Dict Waiter) → IsFiled d → IsFiled (remove k d)
unfolding remove
remove-IsFiled k [] h = tt
remove-IsFiled k ((j, v) ∷ d) h = elim (Bool-cases (bytes_eq k j)) [
  | inl b ↦ rw b h.1
  | inr b ↦ rw b (h.0, remove-IsFiled k d h.1)
]

lookup-IsFiled :
    (k : Bytes) (w : Waiter) (d : Dict Waiter) → IsFiled d → lookup k d ≡ some w → w.header ≡ k
unfolding lookup
lookup-IsFiled k w [] h e = cc e
lookup-IsFiled k w ((j, v) ∷ d) h e = elim (Bool-cases (bytes_eq k j)) [
  | inl b ↦
      let same : v ≡ w = ground (arith, b) in
      sym (ap (λ (x : Waiter). x.header) same) ∙ (h.0 ∙ sym ((bytes_eq_iff k j).0 b))
  | inr b ↦ lookup-IsFiled k w d h.1 (rw b at e)
]

abbrev pub Matches : Waiter × ThalesMessage → Type 0
Matches (w, m) = w.header ≡ m.header

-- A call waits or was answered, once at most and not before it is made.
abbrev Sound : ℕ → HsmClient → Type 0
Sound n c =
    (waiting n c.correlation_map + answered n c.answers ≤ (if ltb n c.calls then 1 else 0))
    × IsFiled c.correlation_map
    × All Matches c.answers

register-Sound : (n : ℕ) (c : HsmClient) → Sound n c → Sound n (register c)
unfolding register
register-Sound n c (count, filed, matched) =
    let (header, _) = next_header c.counter in
    let w : Waiter = record { call_number = c.calls; header = header } in
    let more = waiting-insert n header w c.correlation_map in
    (ground (arith, count, more), insert-IsFiled header w c.correlation_map refl filed, matched)

read_response-Sound :
    (n : ℕ) (m : ThalesMessage) (c : HsmClient) → Sound n c → Sound n (read_response m c)
unfolding read_response
read_response-Sound n m c (count, filed, matched) =
    option_cases (Sound n) (lookup m.header c.correlation_map) (λ _. (count, filed, matched))
      (λ w e. (
        omega (
          arith,
          count,
          waiting-remove n m.header w c.correlation_map e,
          answered-append n c.answers w m,
        ),
        remove-IsFiled m.header c.correlation_map filed,
        All-append Matches c.answers ((w, m) ∷ []) matched
            (lookup-IsFiled m.header w c.correlation_map filed e, tt),
      ))

step-Sound : (n : ℕ) (e : Event) (c : HsmClient) → Sound n c → Sound n (step e c)
unfolding step
step-Sound n command c h = register-Sound n c h
step-Sound n (gives_up k) c (count, filed, matched) = (
  omega (arith, count, waiting-remove_le n k c.correlation_map),
  remove-IsFiled k c.correlation_map filed,
  matched,
)
step-Sound n (response m) c h = read_response-Sound n m c h

run-Sound : (n : ℕ) (es : List Event) (c : HsmClient) → Sound n c → Sound n (run es c)
unfolding run
run-Sound n [] c h = h
run-Sound n (e ∷ es) c h = run-Sound n es (step e c) (step-Sound n e c h)

-- From a new connection on, whatever is sent, times out and comes in, and in whatever order: every
-- response goes to a call that took the header which the response carries, and no call gets more than
-- one, also after the headers, which have four digits, have come round.
pub run-Matches :
    (n : ℕ) (es : List Event)
    → (answered n (run es connected).answers ≤ 1) × All Matches (run es connected).answers
unfolding connected
run-Matches n es =
    let (count, _, matched) = run-Sound n es connected (ground arith, tt, tt) in
    (ground (arith, count), matched)
