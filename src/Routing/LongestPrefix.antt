-- ===== src/Routing/LongestPrefix.antt =====
-- The trie against its specification: a list of routing rules, of which the longest prefix wins.
use iso8583paymentsengine.Base.{
  ℕ, ◌==◌, ==_iff, if◌then◌else◌, Bool-cases, Option-cases, Option, none, some, [], ◌∷◌, ◌≡◌, ◌≢◌,
  refl, sym, ◌∙◌, inl, inr, arith,
}
use iso8583paymentsengine.Base.Text.{Bytes, bytes_eq, bytes_eq_iff}
use iso8583paymentsengine.Routing.{
  Route, BinTrieNode, node, Children, nil, child, empty_node, route_of, children_of, get, put,
  entry, insert_from, find_from, find,
}

-- The route that stands exactly at a BIN.
pub route_at : Bytes → BinTrieNode → Option Route
route_at [] n = route_of n
route_at (b ∷ bin) n = elim (get b (children_of n)) [ none ↦ none | some m ↦ route_at bin m ]

-- The route of the longest prefix of a PAN that has one.
pub longest : (Bytes → Option Route) → Bytes → Option Route → Option Route
longest rules [] best = best
longest rules (b ∷ pan) best =
    longest (λ s. rules (b ∷ s)) pan (elim (rules (b ∷ [])) [ none ↦ best | some r ↦ some r ])

get-put_self : (b : ℕ) (n : BinTrieNode) (c : Children) → get b (put b n c) ≡ some n
unfolding get put
get-put_self b n nil = ground arith
get-put_self b n (child x m rest) = ground (arith, get-put_self b n rest)

get-put_ne : (a b : ℕ) (n : BinTrieNode) (c : Children) → a ≢ b → get a (put b n c) ≡ get a c
unfolding get put
get-put_ne a b n nil h = ground arith
get-put_ne a b n (child x m rest) h = ground (arith, get-put_ne a b n rest h)

pub route_at-empty : (q : Bytes) → route_at q empty_node ≡ none
unfolding route_at get
route_at-empty [] = refl
route_at-empty (b ∷ q) = refl

-- What a byte string leads to below a child list is what it leads to below the entry.
route_at-entry :
    (b : ℕ) (q : Bytes) (r : Option Route) (c : Children)
    → route_at (b ∷ q) (node r c) ≡ route_at q (entry b c)
unfolding route_at entry
route_at-entry b q r c = elim (Option-cases (get b c)) [
  | inl e ↦ rw (e, route_at, entry) (sym (route_at-empty q))
  | inr (n, e) ↦ rw (e, route_at, entry) refl
]

-- After an insertion the BIN has the new route.
pub route_at-insert_self :
    (bin : Bytes) (route : Route) (t : BinTrieNode)
    → route_at bin (insert_from bin route t) ≡ some route
unfolding route_at insert_from
route_at-insert_self [] route (node r c) = refl
route_at-insert_self (b ∷ bin) route (node r c) =
    rw (get-put_self b _ c, route_at) (route_at-insert_self bin route (entry b c))

pub route_at-insert_ne :
    (q bin : Bytes) (route : Route) (t : BinTrieNode)
    → q ≢ bin
    → route_at q (insert_from bin route t) ≡ route_at q t
unfolding route_at insert_from
route_at-insert_ne [] [] route (node r c) h = absurd (h refl)
route_at-insert_ne [] (b ∷ bin) route (node r c) h = refl
route_at-insert_ne (a ∷ q) [] route (node r c) h = refl
route_at-insert_ne (a ∷ q) (b ∷ bin) route (node r c) h = elim (Bool-cases (a == b)) [
  | inl e ↦
      let p = (==_iff a b).0 e in
      rw p (
        rw (get-put_self b _ c, route_at)
          (route_at-insert_ne q bin route (entry b c) (λ s. h (rw (p, s)))
            ∙ sym (route_at-entry b q r c)))
  | inr e ↦ rw (get-put_ne a b _ c (λ p. ground arith), route_at) refl
]

-- An insertion sets the route of its own BIN and of no other.
pub route_at-insert :
    (q bin : Bytes) (route : Route) (t : BinTrieNode)
    → route_at q (insert_from bin route t) ≡ (if bytes_eq q bin then some route else route_at q t)
route_at-insert q bin route t = elim (Bool-cases (bytes_eq q bin)) [
  | inl e ↦ rw e (rw ((bytes_eq_iff q bin).0 e) (route_at-insert_self bin route t))
  | inr e ↦ rw e (route_at-insert_ne q bin route t (λ p. ground (arith, bytes_eq_iff q bin)))
]

longest-none :
    (rules : Bytes → Option Route) (pan : Bytes) (best : Option Route)
    → ((q : Bytes) → rules q ≡ none)
    → longest rules pan best ≡ best
unfolding longest
longest-none rules [] best h = refl
longest-none rules (b ∷ pan) best h =
    rw (h (b ∷ [])) (longest-none (λ s. rules (b ∷ s)) pan best (λ q. h (b ∷ q)))

find_from-longest :
    (pan : Bytes) (t : BinTrieNode) (best : Option Route)
    → find_from pan t best ≡ longest (λ q. route_at q t) pan best
unfolding find_from longest route_at
find_from-longest [] t best = refl
find_from-longest (b ∷ pan) (node r c) best = elim (Option-cases (get b c)) [
  | inl e ↦ rw (e, find_from, route_at) (sym (longest-none (λ s. none) pan best (λ q. refl)))
  | inr (m, e) ↦ rw (e, find_from, route_at) (find_from-longest pan m _)
]

-- `BinTrie::find` returns the route of the longest prefix of the PAN that has one, the empty prefix
-- included, and none if no prefix has one.
pub find-longest :
    (t : BinTrieNode) (pan : Bytes) → find t pan ≡ longest (λ q. route_at q t) pan (route_at [] t)
unfolding find route_at
find-longest t pan = find_from-longest pan t (route_of t)

-- Rules that agree have the same longest prefix.
pub longest_cong :
    (f g : Bytes → Option Route) (pan : Bytes) (best : Option Route)
    → ((q : Bytes) → f q ≡ g q)
    → longest f pan best ≡ longest g pan best
unfolding longest
longest_cong f g [] best h = refl
longest_cong f g (b ∷ pan) best h =
    rw (h (b ∷ [])) (longest_cong (λ s. f (b ∷ s)) (λ s. g (b ∷ s)) pan _ (λ q. h (b ∷ q)))
