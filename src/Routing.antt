-- ===== src/Routing.antt =====
-- The BIN routing trie of switch-core/src/routing.rs.
pub mod LongestPrefix
use iso8583paymentsengine.Base.{ℕ, ◌==◌, if◌then◌else◌, Bool, Option, none, some, List, [], ◌∷◌}
use iso8583paymentsengine.Base.Text.{Bytes}

pub data RouteDestination : Type 0 where
  internal_crdb : RouteDestination
  external_node : Bytes → RouteDestination

pub record Route : Type 0 where
  pub destination : RouteDestination
  pub failover_node : Option Bytes

-- `HashMap<u8, Box<BinTrieNode>>` as a list of children, one for each byte.
mutual
  pub data BinTrieNode : Type 0 where
    node : Option Route → Children → BinTrieNode

  pub data Children : Type 0 where
    nil : Children
    child : ℕ → BinTrieNode → Children → Children

abbrev pub empty_node : BinTrieNode
empty_node = node none nil

abbrev pub route_of : BinTrieNode → Option Route
route_of (node r _) = r

abbrev pub children_of : BinTrieNode → Children
children_of (node _ c) = c

-- `children.get(&b)`
unfoldable pub get : ℕ → Children → Option BinTrieNode
get b nil = none
get b (child c n rest) = if b == c then some n else get b rest

-- The child under a byte, made on the way if it is not there, put back as `n`.
unfoldable pub put : ℕ → BinTrieNode → Children → Children
put b n nil = child b n nil
put b n (child c m rest) = if b == c then child b n rest else child c m (put b n rest)

-- `children.entry(b).or_insert_with(BinTrieNode::new)`
unfoldable pub entry : ℕ → Children → BinTrieNode
unfolding get
entry b c = elim (get b c) [ none ↦ empty_node | some n ↦ n ]

-- `BinTrie::insert`, from the node that the walk stands at.
unfoldable pub insert_from : Bytes → Route → BinTrieNode → BinTrieNode
insert_from [] route (node r c) = node (some route) c
insert_from (b ∷ bin) route (node r c) = node r (put b (insert_from bin route (entry b c)) c)

-- The loop of `BinTrie::find` over the rest of the PAN.
unfoldable pub find_from : Bytes → BinTrieNode → Option Route → Option Route
find_from [] curr best = best
find_from (b ∷ pan) curr best = elim (get b (children_of curr)) [
  | none ↦ best
  | some next ↦ find_from pan next (elim (route_of next) [ none ↦ best | some r ↦ some r ])
]

unfoldable pub find : BinTrieNode → Bytes → Option Route
unfolding find_from
find root pan = find_from pan root (route_of root)
