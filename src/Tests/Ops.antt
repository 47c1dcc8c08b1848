-- ===== src/Tests/Ops.antt =====
-- Runs of the control plane and of the payment daemon.
use iso8583paymentsengine.Base.{
  ℕ, ◌+◌, ◌≡◌, refl, Bool, true, ◌&&◌, none, some, List, [], ◌∷◌, ltb, if◌then◌else◌, arith, map,
  take,
}
use mathlib.Core.List.{reverse}
use iso8583paymentsengine.Base.Text.{Bytes, codes, bytes_eq}
use iso8583paymentsengine.Base.Int.{pos}
use iso8583paymentsengine.Base.Dict.{lookup, contains_key}
use iso8583paymentsengine.Routing.{find}
use iso8583paymentsengine.Routing.LongestPrefix.{longest}
use iso8583paymentsengine.Switch.State.{new_engine}
use iso8583paymentsengine.Switch.Ingress.{is_risky, network_id}
use iso8583paymentsengine.Ops.Table.{
  Row, Table, live, not_found, update, Request, create_row, update_row, handle_all,
}
use iso8583paymentsengine.Ops.Live.{IsTable, live_count, creations, handle_all-IsTable}
use iso8583paymentsengine.Ops.History.{Kept, handle_all-Kept, update_unnumbered}
use iso8583paymentsengine.Ops.Publish.{
  Wire, CrdbTerms, StipKey, StipTerms, RouteTerms, fetch_live, publish_routes, publish_stip,
}
use iso8583paymentsengine.Ops.Published.{
  last_route, publish_routes-find, last_rule, publish_stip-is_risky,
}
use iso8583paymentsengine.Wal.Journal.{new_wal, write_records}
use iso8583paymentsengine.Wal.Settled.{accepted}
use iso8583paymentsengine.Daemon.Journal.{event_of, journal_events, get_journal}
use iso8583paymentsengine.Daemon.JournalView.{get_journal_ends, get_journal-write_records}
use iso8583paymentsengine.Daemon.NetworkManager.{tick}
use iso8583paymentsengine.Daemon.Probed.{probed, tick-probed}
use iso8583paymentsengine.Tests.Samples.{sale}
use iso8583paymentsengine.Tests.Log.{sample_encode, sample_decode, decode_sample, approved_sale}

-- A database and a daemon that answer everything.
abbrev sound_wire : {Key Terms : Type 0} → Wire Key Terms
sound_wire = record {
  db_ok = true;
  is_readable = λ r. true;
  is_received = true;
  is_answered = true;
}

-- A card with a limit, which is raised once.
abbrev cards : Table Bytes CrdbTerms
cards = record { rows = []; sequence = some 1 }

abbrev card_requests : List (Bool × ℕ × Request Bytes CrdbTerms)
card_requests =
    (
      true,
      10,
      create_row (codes "4111") (record { daily_limit = pos 5000; status = codes "Active" }),
    )
    ∷ (true, 20, update_row 1 (record { daily_limit = pos 9000; status = codes "Active" }))
    ∷ []

handle_all-IsTable_example :
    let f = bytes_eq (codes "4111") in
    IsTable (handle_all card_requests cards)
    × (live_count f (handle_all card_requests cards).rows
        ≡ live_count f cards.rows + creations f card_requests)
handle_all-IsTable_example =
    handle_all-IsTable (bytes_eq (codes "4111")) card_requests cards (1, refl, omega arith)

handle_all-Kept_example :
    Kept
      (handle_all card_requests cards).rows
      (handle_all card_requests (handle_all card_requests cards)).rows
handle_all-Kept_example = handle_all-Kept card_requests (handle_all card_requests cards)

-- Two routes, as the seed has them.
abbrev route_row_of : Bytes → Bytes → Row Bytes RouteTerms
route_row_of bin target = record {
  id = none;
  key = bin;
  terms = record {
    destination_type = codes "ExternalNode";
    target_node = some target;
    failover_node = none;
  };
  version = pos 1;
  valid_from = 0;
  valid_to = none;
  is_live = true;
}

abbrev routes : Table Bytes RouteTerms
routes = record {
  rows =
      route_row_of (codes "4") (codes "MockVisaNode")
      ∷ route_row_of (codes "5") (codes "MockMastercardNode")
      ∷ [];
  sequence = none;
}

update_unnumbered_example :
    let t = handle_all ((true, 5, update_row 1 (route_row_of [] (codes "A")).terms) ∷ []) routes in
    update true 7 1 (route_row_of [] (codes "B")).terms t ≡ (t, some not_found)
update_unnumbered_example =
    update_unnumbered ((true, 5, update_row 1 (route_row_of [] (codes "A")).terms) ∷ []) routes 7 1
      (route_row_of [] (codes "B")).terms (refl, (refl, (refl, tt)))

publish_routes-find_example :
    find (publish_routes sound_wire routes new_engine).0.router (codes "4111222233334444")
    ≡ longest
        (last_route (live routes.rows))
        (codes "4111222233334444")
        (last_route (live routes.rows) [])
unfolding fetch_live
publish_routes-find_example =
    publish_routes-find sound_wire routes new_engine (codes "4111222233334444") refl refl

abbrev default_rule : Row StipKey StipTerms
default_rule = record {
  id = some 1;
  key = record { network_id = codes "DEFAULT"; condition_type = codes "STAND_IN_APPROVAL" };
  terms = record { max_approval_amount = pos 5000; max_risk_score = pos 85 };
  version = pos 1;
  valid_from = 0;
  valid_to = none;
  is_live = true;
}

abbrev rules : Table StipKey StipTerms
rules = record { rows = default_rule ∷ []; sequence = some 2 }

publish_stip-is_risky_example : is_risky sale (publish_stip sound_wire rules new_engine).0 ≡ (
    ltb 0 sale.risk_score
    && ltb
        (elim (last_rule (live rules.rows) (network_id sale)) [
          | none ↦ 100
          | some r ↦ r.max_risk_score
        ])
        sale.risk_score)
unfolding fetch_live
publish_stip-is_risky_example = publish_stip-is_risky sound_wire rules new_engine sale refl refl

get_journal_ends_example :
    take 100 (reverse (journal_events sample_decode (5 + 4) (0 ∷ 0 ∷ 0 ∷ 9 ∷ []) 0))
    ≡ get_journal sample_decode (0 ∷ 0 ∷ 0 ∷ 9 ∷ [])
get_journal_ends_example = get_journal_ends sample_decode 5 (0 ∷ 0 ∷ 0 ∷ 9 ∷ [])

get_journal-write_records_example :
    get_journal sample_decode
      (write_records sample_encode (approved_sale ∷ approved_sale ∷ []) (new_wal 300)).mmap
    ≡ take 100
        (reverse (map event_of (accepted sample_encode 300 (approved_sale ∷ approved_sale ∷ []))))
get_journal-write_records_example =
    get_journal-write_records sample_encode sample_decode decode_sample 300
      (approved_sale ∷ approved_sale ∷ []) (ground arith)

tick-probed_example :
    let takes = bytes_eq (codes "MockVisaNode") in
    let s = tick takes (λ n. 1700000000) new_engine in
    (lookup (codes "MockVisaNode") s.node_health ≡ (
      if contains_key (codes "MockVisaNode") new_engine.egress_channels
      then some (takes (codes "MockVisaNode"))
      else lookup (codes "MockVisaNode") new_engine.node_health))
    × (lookup (codes "MockVisaNode") s.egress_channels
        ≡ probed takes
            (λ n. 1700000000)
            (codes "MockVisaNode")
            (lookup (codes "MockVisaNode") new_engine.egress_channels))
unfolding new_engine lookup bytes_eq
tick-probed_example =
    tick-probed (bytes_eq (codes "MockVisaNode")) (λ n. 1700000000) (codes "MockVisaNode")
      new_engine (refl, (refl, tt))
