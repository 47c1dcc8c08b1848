-- ===== src/Ops/Published.antt =====
-- What the switch goes by after ops-control-plane/src/main.rs has published a table: the last live row of
-- each name.
use iso8583paymentsengine.Base.{
  ◌≡◌, refl, ap, ◌∙◌, true, ◌&&◌, Option, none, some, List, [], ◌∷◌, if◌then◌else◌, ltb, arith,
}
use iso8583paymentsengine.Base.Text.{Bytes, bytes_eq}
use iso8583paymentsengine.Base.Dict.{
  Dict, lookup, insert, later, later_assoc, later-none, lookup-insert-later,
}
use iso8583paymentsengine.Routing.{Route, BinTrieNode, empty_node, find, insert_from}
use iso8583paymentsengine.Routing.LongestPrefix.{
  route_at, route_at-empty, longest, longest_cong, find-longest, route_at-insert,
}
use iso8583paymentsengine.Switch.State.{Engine, StipRule}
use iso8583paymentsengine.Canonical.{UniversalPaymentEvent}
use iso8583paymentsengine.Switch.Ingress.{network_id, risk_threshold, is_risky}
use iso8583paymentsengine.Ops.Table.{Row, Table, live}
use iso8583paymentsengine.Ops.Publish.{
  Wire, StipKey, StipTerms, RouteTerms, fetch_live, post, stip_rule, rules_of, publish_stip,
  route_row, route_rows, publish_routes,
}
use iso8583paymentsengine.Daemon.HotReload.{
  route_of_row, compile, hot_reload_stip, hot_reload_routes,
}

-- The route of the last row with exactly this prefix and a valid destination.
abbrev pub last_route : List (Row Bytes RouteTerms) → Bytes → Option Route
last_route [] bin = none
last_route (r ∷ rows) bin =
    later (last_route rows bin) (if bytes_eq bin r.key then route_of_row (route_row r) else none)

route_at-step :
    (bin key : Bytes) (o : Option Route) (t : BinTrieNode)
    → route_at bin (elim o [ none ↦ t | some route ↦ insert_from key route t ])
      ≡ later (if bytes_eq bin key then o else none) (route_at bin t)
route_at-step bin key none t = ground arith
route_at-step bin key (some route) t = route_at-insert bin key route t ∙ ground arith

route_at-compile :
    (bin : Bytes) (rows : List (Row Bytes RouteTerms)) (t : BinTrieNode)
    → route_at bin (compile (route_rows rows) t) ≡ later (last_route rows bin) (route_at bin t)
unfolding compile route_row
route_at-compile bin [] t = refl
route_at-compile bin (r ∷ rows) t =
    let t' : BinTrieNode = elim (route_of_row (route_row r)) [
      | none ↦ t
      | some route ↦ insert_from r.key route t
    ] in
    route_at-compile bin rows t'
    ∙ (ap (later (last_route rows bin)) (route_at-step bin r.key (route_of_row (route_row r)) t)
        ∙ later_assoc (last_route rows bin)
            (if bytes_eq bin r.key then route_of_row (route_row r) else none) (route_at bin t))

-- The routes are published and the daemon gets them. Then the switch sends a PAN by the route of its
-- longest prefix, the empty one included, that is the prefix of a live row with a valid destination, and
-- by the last of those rows if there are several; and by none if there is no such row.
pub publish_routes-find :
    (w : Wire Bytes RouteTerms) (t : Table Bytes RouteTerms) (s : Engine) (pan : Bytes)
    → fetch_live w t ≡ live t.rows
    → w.is_received ≡ true
    → find (publish_routes w t s).0.router pan
      ≡ longest (last_route (live t.rows)) pan (last_route (live t.rows) [])
unfolding publish_routes post hot_reload_routes
publish_routes-find w t s pan readable got =
    let rows = live t.rows in
    let trie = compile (route_rows rows) empty_node in
    let at : (q : Bytes) → route_at q trie ≡ last_route rows q = λ q.
      route_at-compile q rows empty_node
      ∙ (ap (later (last_route rows q)) (route_at-empty q) ∙ later-none (last_route rows q)) in
    rw (got, readable)
      (find-longest trie pan
        ∙ (longest_cong _ _ pan (route_at [] trie) at ∙ ap (longest (last_route rows) pan) (at [])))

-- The rule of the last row of a network.
abbrev pub last_rule : List (Row StipKey StipTerms) → Bytes → Option StipRule
last_rule [] n = none
last_rule (r ∷ rows) n =
    later (last_rule rows n) (if bytes_eq n r.key.network_id then some (stip_rule r) else none)

lookup-rules_of :
    (n : Bytes) (rows : List (Row StipKey StipTerms)) (d : Dict StipRule)
    → lookup n (rules_of rows d) ≡ later (last_rule rows n) (lookup n d)
unfolding rules_of
lookup-rules_of n [] d = refl
lookup-rules_of n (r ∷ rows) d =
    lookup-rules_of n rows (insert r.key.network_id (stip_rule r) d)
    ∙ (ap (later (last_rule rows n)) (lookup-insert-later n r.key.network_id (stip_rule r) d)
        ∙ later_assoc (last_rule rows n)
            (if bytes_eq n r.key.network_id then some (stip_rule r) else none) (lookup n d))

-- The stand-in rules are published and the daemon gets them. Then an event is risky to the switch if its
-- score is above 0 and above the maximum of the last live row of its network, brought into 0 to 100, and
-- above 100 where the network has no live row.
pub publish_stip-is_risky :
    (w : Wire StipKey StipTerms) (t : Table StipKey StipTerms) (s : Engine)
    (e : UniversalPaymentEvent)
    → fetch_live w t ≡ live t.rows
    → w.is_received ≡ true
    → is_risky e (publish_stip w t s).0 ≡ (
        ltb 0 e.risk_score
        && ltb
            (elim (last_rule (live t.rows) (network_id e)) [
              | none ↦ 100
              | some r ↦ r.max_risk_score
            ])
            e.risk_score)
unfolding publish_stip post hot_reload_stip is_risky risk_threshold lookup
publish_stip-is_risky w t s e readable got =
    let same : lookup (network_id e) (rules_of (live t.rows) [])
        ≡ last_rule (live t.rows) (network_id e) =
      lookup-rules_of (network_id e) (live t.rows) [] ∙ later-none _ in
    rw (got, readable)
      (ap
        (λ (o : Option StipRule).
          ltb 0 e.risk_score
          && ltb (elim o [ none ↦ 100 | some r ↦ r.max_risk_score ]) e.risk_score)
        same)
