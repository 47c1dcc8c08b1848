-- ===== src/Ops/Publish.antt =====
-- What ops-control-plane/src/main.rs publishes to the switch: the live rows of each table, as the payload
-- that the daemon's hot reload handlers take.
use iso8583paymentsengine.Base.{
  ℕ, ◌+◌, Bool, true, ◌&&◌, Option, List, [], ◌∷◌, ◌++◌, if◌then◌else◌, min,
}
use iso8583paymentsengine.Base.Text.{Bytes, codes, bytes_eq}
use iso8583paymentsengine.Base.Dict.{Dict, insert}
use iso8583paymentsengine.Base.Digits.{format_uint}
use iso8583paymentsengine.Base.Int.{ℤ, pos, negsuc}
use iso8583paymentsengine.Switch.State.{Engine, CardRecord, StipRule}
use iso8583paymentsengine.Ops.Table.{Row, Table, live, StatusCode, ok, bad_gateway}
use iso8583paymentsengine.Daemon.HotReload.{
  RouteRow, hot_reload_crdb, hot_reload_stip, hot_reload_routes,
}

pub record CrdbTerms : Type 0 where
  pub daily_limit : ℤ
  pub status : Bytes

pub record StipKey : Type 0 where
  pub network_id : Bytes
  pub condition_type : Bytes

pub record StipTerms : Type 0 where
  pub max_approval_amount : ℤ
  pub max_risk_score : ℤ

pub record RouteTerms : Type 0 where
  pub destination_type : Bytes
  pub target_node : Option Bytes
  pub failover_node : Option Bytes

-- `format!("{}", n)` of an `i64`.
unfoldable pub format_int : ℤ → Bytes
format_int (pos n) = format_uint n
format_int (negsuc n) = b'-' ∷ format_uint (n + 1)

-- `n.clamp(0, 100) as u8`
unfoldable pub clamp_score : ℤ → ℕ
clamp_score (pos n) = min n 100
clamp_score (negsuc n) = 0

-- What meets a publication outside the control plane: whether the database answers, which rows sqlx can
-- read into the row type, and whether the daemon gets the request and its answer comes back. The JSON of
-- a payload is read as what it was written from.
pub record Wire (Key Terms : Type 0) : Type 0 where
  pub db_ok : Bool
  pub is_readable : Row Key Terms → Bool
  pub is_received : Bool
  pub is_answered : Bool

module _ {Key Terms : Type 0} where
  abbrev all_readable : (Row Key Terms → Bool) → List (Row Key Terms) → Bool
  all_readable is_readable [] = true
  all_readable is_readable (r ∷ rows) = is_readable r && all_readable is_readable rows

  -- `query_as(…).fetch_all(…).await.unwrap_or_default()`: one row that cannot be read empties the list.
  unfoldable pub fetch_live : Wire Key Terms → Table Key Terms → List (Row Key Terms)
  unfolding live
  fetch_live w t = if w.db_ok && all_readable w.is_readable (live t.rows) then live t.rows else []

  -- The post to the daemon, and the status that the operator sees.
  unfoldable pub post : Wire Key Terms → (Engine → Engine) → Engine → Engine × StatusCode
  post w reload s = (
    if w.is_received then reload s else s,
    if w.is_received && w.is_answered then ok else bad_gateway,
  )

-- Every card is given the same PVV.
unfoldable pub card_record : Row Bytes CrdbTerms → CardRecord
card_record r = record {
  is_blocked = bytes_eq r.terms.status (codes "Blocked");
  pvv = codes "1234";
}

unfoldable pub cards_of : List (Row Bytes CrdbTerms) → Dict CardRecord → Dict CardRecord
unfolding card_record
cards_of [] cards = cards
cards_of (r ∷ rows) cards = cards_of rows (insert r.key (card_record r) cards)

unfoldable pub publish_crdb :
    Wire Bytes CrdbTerms → Table Bytes CrdbTerms → Engine → Engine × StatusCode
unfolding fetch_live cards_of post
publish_crdb w t = post w (hot_reload_crdb (cards_of (fetch_live w t) []))

unfoldable pub stip_rule : Row StipKey StipTerms → StipRule
unfolding format_int clamp_score
stip_rule r = record {
  action = codes "APPROVE_UP_TO_" ++ format_int r.terms.max_approval_amount;
  max_risk_score = clamp_score r.terms.max_risk_score;
}

unfoldable pub rules_of : List (Row StipKey StipTerms) → Dict StipRule → Dict StipRule
unfolding stip_rule
rules_of [] rules = rules
rules_of (r ∷ rows) rules = rules_of rows (insert r.key.network_id (stip_rule r) rules)

unfoldable pub publish_stip :
    Wire StipKey StipTerms → Table StipKey StipTerms → Engine → Engine × StatusCode
unfolding fetch_live rules_of post
publish_stip w t = post w (hot_reload_stip (rules_of (fetch_live w t) []))

-- The row as the daemon reads it.
unfoldable pub route_row : Row Bytes RouteTerms → RouteRow
route_row r = record {
  bin_prefix = r.key;
  destination_type = r.terms.destination_type;
  target_node = r.terms.target_node;
  failover_node = r.terms.failover_node;
}

abbrev pub route_rows : List (Row Bytes RouteTerms) → List RouteRow
route_rows [] = []
route_rows (r ∷ rows) = route_row r ∷ route_rows rows

unfoldable pub publish_routes :
    Wire Bytes RouteTerms → Table Bytes RouteTerms → Engine → Engine × StatusCode
unfolding fetch_live route_row post
publish_routes w t = post w (hot_reload_routes (route_rows (fetch_live w t)))
