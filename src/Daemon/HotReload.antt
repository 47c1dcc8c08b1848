-- ===== src/Daemon/HotReload.antt =====
-- The hot reload handlers of payment-daemon/src/main.rs: each replaces one part of the shared state.
use iso8583paymentsengine.Base.{Option, none, some, List, [], ◌∷◌, if◌then◌else◌}
use iso8583paymentsengine.Base.Text.{Bytes, codes, bytes_eq}
use iso8583paymentsengine.Base.Dict.{Dict}
use iso8583paymentsengine.Routing.{
  internal_crdb, external_node, Route, BinTrieNode, empty_node, insert_from,
}
use iso8583paymentsengine.Switch.State.{Engine, CardRecord, StipRule}

-- A row of the payload, with the names of the nodes where the operator gave some.
pub record RouteRow : Type 0 where
  pub bin_prefix : Bytes
  pub destination_type : Bytes
  pub target_node : Option Bytes
  pub failover_node : Option Bytes

-- The route of a row; a row with neither a node nor the internal destination has none.
unfoldable pub route_of_row : RouteRow → Option Route
route_of_row row =
    if bytes_eq row.destination_type (codes "InternalCrdb")
    then some (record { destination = internal_crdb; failover_node = row.failover_node })
    else (elim row.target_node [
      | none ↦ none
      | some target ↦
          some (record { destination = external_node target; failover_node = row.failover_node })
    ])

-- The loop that compiles the trie.
unfoldable pub compile : List RouteRow → BinTrieNode → BinTrieNode
unfolding route_of_row
compile [] trie = trie
compile (row ∷ rows) trie =
    compile rows
      (elim (route_of_row row) [ none ↦ trie | some route ↦ insert_from row.bin_prefix route trie ])

unfoldable pub hot_reload_crdb : Dict CardRecord → Engine → Engine
hot_reload_crdb cards s = record s { crdb_cards = cards }

unfoldable pub hot_reload_stip : Dict StipRule → Engine → Engine
hot_reload_stip rules s = record s { stip_rules = rules }

unfoldable pub hot_reload_routes : List RouteRow → Engine → Engine
unfolding compile
hot_reload_routes rows s = record s { router = compile rows empty_node }
