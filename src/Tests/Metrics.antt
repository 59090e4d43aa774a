-- ===== src/Tests/Metrics.antt =====
-- The metrics server, with numbers for ids and for the metrics.
use offs.Base.{ℕ, true, some, List, [], ◌∷◌, ◌==◌, ==_iff, Bytes, codes, ◌≡◌, refl, arith}
use offs.Metrics.{
  NodeReport, Report, Decoded, decoded, invalid_cbor, Request, Response, ok, Network, find_node,
  store, Counters, Totals, totals_from, no_totals,
}
use offs.Metrics.Table.{lookup_node, store-lookup}
use offs.Metrics.Invariant.{IsTable, serve, serve-IsTable}
use offs.Metrics.Sums.{Adds, totals_from-Adds}

abbrev pub report_of : ℕ → Report ℕ ℕ
report_of id = record { reporter_id = id; timestamp_ms = 1000; metrics = 42 }

-- A body is the id and nothing else.
abbrev decode_id : Bytes → Decoded ℕ ℕ
decode_id (id ∷ []) = decoded (report_of id)
decode_id _ = invalid_cbor

abbrev pub net : Network ℕ ℕ
net = record { node_id_equals = λ a b. a == b; no_metrics = 0; decode = decode_id }

abbrev pub node : ℕ → ℕ → NodeReport ℕ ℕ
node id count = record { node_id = id; last_seen_ms = 5; latest = 6; report_count = count }

abbrev pub nodes : List (NodeReport ℕ ℕ)
nodes = node 1 3 ∷ node 2 1 ∷ []

abbrev pub updated : NodeReport ℕ ℕ
updated = record { node_id = 2; last_seen_ms = 1000; latest = 42; report_count = 2 }

store-lookup_example : lookup_node net (node 1 3 ∷ updated ∷ []) 2 ≡ some updated
unfolding lookup_node store offs.Metrics.find_or_create_node find_node offs.Metrics.fill_at
    offs.Metrics.add_report offs.Metrics.Table.int_max
store-lookup_example =
    store-lookup net ==_iff nodes (node 1 3 ∷ updated ∷ []) (report_of 2) 2 refl (omega arith)

abbrev post : ℕ → Request
post id = record { is_post = true; path = codes "/report"; body = some (id ∷ []) }

serve-IsTable_example : IsTable net (serve net nodes (post 2 ∷ post 9 ∷ []))
unfolding find_node
serve-IsTable_example =
    serve-IsTable net ==_iff (post 2 ∷ post 9 ∷ []) nodes
      (record { distinct = (refl, (refl, tt)); bounded = omega arith })

abbrev counters : Counters ℕ
counters = record {
  peer_snapshot_count = λ m. m;
  ring_entry_count = λ m. m;
  total_connections = λ m. m;
  total_rpc_calls = λ m. m ∷ 1 ∷ [];
  total_rate_limit_accepted = λ m. m ∷ [];
  total_rate_limit_rejected = λ m. [];
  peers = λ m. (m ∷ [], 1 ∷ []) ∷ [];
}

totals_from-Adds_example : Adds counters no_totals (totals_from counters no_totals nodes) nodes
totals_from-Adds_example = totals_from-Adds counters nodes
