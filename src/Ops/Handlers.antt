-- ===== src/Ops/Handlers.antt =====
-- The request payloads and the handlers of ops-control-plane/src/main.rs for its three tables.
use mathlib.Core.List.{reverse}
use iso8583paymentsengine.Base.{ℕ, Bool, Option, List}
use iso8583paymentsengine.Base.Text.{Bytes}
use iso8583paymentsengine.Base.Int.{ℤ, pos}
use iso8583paymentsengine.Ops.Table.{Row, Table, StatusCode, create, update}
use iso8583paymentsengine.Ops.Publish.{Wire, CrdbTerms, StipKey, StipTerms, RouteTerms, fetch_live}

pub record CreateCrdbReq : Type 0 where
  pub pan_hash : Bytes
  pub daily_limit : ℤ
  pub status : Bytes

pub record UpdateCrdbReq : Type 0 where
  pub daily_limit : ℤ
  pub status : Bytes

pub record CreateStipReq : Type 0 where
  pub network_id : Bytes
  pub condition_type : Bytes
  pub max_approval_amount : ℤ
  pub max_risk_score : ℤ

-- What serde puts in for a missing score.
abbrev pub default_max_risk_score : ℤ
default_max_risk_score = pos 100

pub record UpdateStipReq : Type 0 where
  pub max_approval_amount : ℤ
  pub max_risk_score : ℤ

pub record CreateRouteReq : Type 0 where
  pub bin_prefix : Bytes
  pub destination_type : Bytes
  pub target_node : Option Bytes
  pub failover_node : Option Bytes

pub record UpdateRouteReq : Type 0 where
  pub destination_type : Bytes
  pub target_node : Option Bytes
  pub failover_node : Option Bytes

-- The live rows, the highest id first: the rows stand in the order of their ids.
unfoldable pub get_active_crdb_records :
    Wire Bytes CrdbTerms → Table Bytes CrdbTerms → List (Row Bytes CrdbTerms)
unfolding fetch_live
get_active_crdb_records w t = reverse (fetch_live w t)

unfoldable pub get_active_stip_rules :
    Wire StipKey StipTerms → Table StipKey StipTerms → List (Row StipKey StipTerms)
unfolding fetch_live
get_active_stip_rules w t = reverse (fetch_live w t)

unfoldable pub create_crdb_record :
    Bool → ℕ → CreateCrdbReq → Table Bytes CrdbTerms → Table Bytes CrdbTerms × StatusCode
unfolding create
create_crdb_record db_ok now payload t =
    create db_ok now payload.pan_hash
      (record { daily_limit = payload.daily_limit; status = payload.status }) t

unfoldable pub update_crdb_record :
    Bool → ℕ → ℕ → UpdateCrdbReq → Table Bytes CrdbTerms → Table Bytes CrdbTerms × Option StatusCode
unfolding update
update_crdb_record db_ok now id payload t =
    update db_ok now id (record { daily_limit = payload.daily_limit; status = payload.status }) t

unfoldable pub create_stip_rule :
    Bool → ℕ → CreateStipReq → Table StipKey StipTerms → Table StipKey StipTerms × StatusCode
unfolding create
create_stip_rule db_ok now payload t =
    create db_ok now
      (record { network_id = payload.network_id; condition_type = payload.condition_type })
      (record {
        max_approval_amount = payload.max_approval_amount;
        max_risk_score = payload.max_risk_score;
      })
      t

unfoldable pub update_stip_rule :
    Bool
    → ℕ
    → ℕ
    → UpdateStipReq
    → Table StipKey StipTerms
    → Table StipKey StipTerms × Option StatusCode
unfolding update
update_stip_rule db_ok now id payload t =
    update db_ok now id
      (record {
        max_approval_amount = payload.max_approval_amount;
        max_risk_score = payload.max_risk_score;
      })
      t

unfoldable pub create_route :
    Bool → ℕ → CreateRouteReq → Table Bytes RouteTerms → Table Bytes RouteTerms × StatusCode
unfolding create
create_route db_ok now payload t =
    create db_ok now payload.bin_prefix
      (record {
        destination_type = payload.destination_type;
        target_node = payload.target_node;
        failover_node = payload.failover_node;
      })
      t

unfoldable pub update_route :
    Bool
    → ℕ
    → ℕ
    → UpdateRouteReq
    → Table Bytes RouteTerms
    → Table Bytes RouteTerms × Option StatusCode
unfolding update
update_route db_ok now id payload t =
    update db_ok now id
      (record {
        destination_type = payload.destination_type;
        target_node = payload.target_node;
        failover_node = payload.failover_node;
      })
      t
