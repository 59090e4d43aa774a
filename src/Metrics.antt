-- ===== src/Metrics.antt =====
-- The metrics server (src/offs-metrics/metrics_server.c): the table of nodes that reports are
-- stored in, and the totals over it. The ids and the decoded metrics are those of the network
-- library, so they are parameters; the log and the JSON of /status are left out.
pub mod Table
pub mod Invariant
pub mod Sums
pub mod Status
pub mod Server
use offs.Base.{
  ℕ, suc, ◌+◌, ◌*◌, ◌%◌, ◌^◌, Bool, true, false, ◌&&◌, ◌||◌, not, Option, none, some, List, [], ◌∷◌,
  ◌++◌, ltb, leb, if◌then◌else◌, length, Bytes, codes, str_eq,
}

-- MAX_NODES
abbrev pub max_nodes : ℕ
max_nodes = 256

-- node_report_t
pub record NodeReport (NodeId Metrics : Type 0) : Type 0 where
  pub node_id : NodeId
  pub last_seen_ms : ℕ
  pub latest : Metrics
  pub report_count : ℕ

-- A report that is decoded.
pub record Report (NodeId Metrics : Type 0) : Type 0 where
  pub reporter_id : NodeId
  pub timestamp_ms : ℕ
  pub metrics : Metrics

-- cbor_load and topology_report_decode, of a body.
pub data Decoded (NodeId Metrics : Type 0) : Type 0 where
  invalid_cbor invalid_report : Decoded NodeId Metrics
  decoded : Report NodeId Metrics → Decoded NodeId Metrics

pub record Request : Type 0 where
  pub is_post : Bool
  pub path : Bytes
  pub body : Option Bytes

-- `declined` leaves the request to the other handlers.
pub data Response : Type 0 where
  declined ok empty_body bad_cbor bad_report table_full : Response

-- The network library: the ids' comparison, and the decoder.
pub record Network (NodeId Metrics : Type 0) : Type 0 where
  pub node_id_equals : NodeId → NodeId → Bool
  -- The zeroed metrics of a new entry.
  pub no_metrics : Metrics
  pub decode : Bytes → Decoded NodeId Metrics

-- One more of a C int, as its 32 bits: past INT_MAX the language leaves it undefined, and here the
-- bits go on.
unfoldable pub add_report : ℕ → ℕ
add_report count = suc count % 2 ^ 32

module _ {NodeId Metrics : Type 0} (net : Network NodeId Metrics) where
  -- The loop over g_nodes: where the node stands.
  unfoldable pub find_node : List (NodeReport NodeId Metrics) → NodeId → Option ℕ
  find_node [] id = none
  find_node (entry ∷ nodes) id =
      let behind = find_node nodes id in
      if net.node_id_equals entry.node_id id
      then some 0
      else elim behind [ none ↦ none | some i ↦ some (suc i) ]

  -- The table behind the call and the entry's place in it; `none` if the table is full.
  add_node :
      List (NodeReport NodeId Metrics)
      → NodeId
      → Option ℕ
      → Option (List (NodeReport NodeId Metrics) × ℕ)
  add_node nodes id (some i) = some (nodes, i)
  add_node nodes id none =
      if leb max_nodes (length nodes)
      then none
      else some (
        nodes
            ++ (record { node_id = id; last_seen_ms = 0; latest = net.no_metrics; report_count = 0 }
                ∷ []),
        length nodes,
      )

  unfoldable pub find_or_create_node :
      List (NodeReport NodeId Metrics) → NodeId → Option (List (NodeReport NodeId Metrics) × ℕ)
  unfolding add_node
  find_or_create_node nodes id = add_node nodes id (find_node nodes id)

  fill_entry : Report NodeId Metrics → NodeReport NodeId Metrics → NodeReport NodeId Metrics
  fill_entry r entry = record entry {
    latest = r.metrics;
    last_seen_ms = r.timestamp_ms;
    report_count = add_report entry.report_count;
  }

  -- The entry at a place is written in the table.
  unfoldable pub fill_at :
      ℕ
      → Report NodeId Metrics
      → List (NodeReport NodeId Metrics)
      → List (NodeReport NodeId Metrics)
  unfolding fill_entry
  fill_at i r [] = []
  fill_at ℕ.zero r (entry ∷ nodes) = fill_entry r entry ∷ nodes
  fill_at (suc i) r (entry ∷ nodes) = entry ∷ fill_at i r nodes

  store_at :
      List (NodeReport NodeId Metrics)
      → Report NodeId Metrics
      → Option (List (NodeReport NodeId Metrics) × ℕ)
      → List (NodeReport NodeId Metrics) × Response
  store_at nodes r none = (nodes, table_full)
  store_at nodes r (some (found, i)) = (fill_at i r found, ok)

  unfoldable pub store :
      List (NodeReport NodeId Metrics)
      → Decoded NodeId Metrics
      → List (NodeReport NodeId Metrics) × Response
  unfolding store_at
  store nodes invalid_cbor = (nodes, bad_cbor)
  store nodes invalid_report = (nodes, bad_report)
  store nodes (decoded r) = store_at nodes r (find_or_create_node nodes r.reporter_id)

  receive :
      List (NodeReport NodeId Metrics) → Option Bytes → List (NodeReport NodeId Metrics) × Response
  receive nodes none = (nodes, empty_body)
  receive nodes (some []) = (nodes, empty_body)
  receive nodes (some (c ∷ cs)) = store nodes (net.decode (c ∷ cs))

  unfoldable pub handle_report :
      List (NodeReport NodeId Metrics) → Request → List (NodeReport NodeId Metrics) × Response
  unfolding store_at store receive
  handle_report nodes request =
      if not request.is_post || not (str_eq request.path (codes "/report"))
      then (nodes, declined)
      else receive nodes request.body

-- The counters of a node's metrics: those of the node, and success and failure per peer.
pub record Counters (Metrics : Type 0) : Type 0 where
  pub peer_snapshot_count : Metrics → ℕ
  pub ring_entry_count : Metrics → ℕ
  pub total_connections : Metrics → ℕ
  pub total_rpc_calls : Metrics → List ℕ
  pub total_rate_limit_accepted : Metrics → List ℕ
  pub total_rate_limit_rejected : Metrics → List ℕ
  -- rpc_success and rpc_failure of each of the snapshots
  pub peers : Metrics → List (List ℕ × List ℕ)

-- The sums that /metrics shows, less the average of the weights.
pub record Totals : Type 0 where
  pub peers : ℕ
  pub ring_entries : ℕ
  pub connections : ℕ
  pub rpc_calls : ℕ
  pub rpc_success : ℕ
  pub rpc_failure : ℕ
  pub rate_limit_accepted : ℕ
  pub rate_limit_rejected : ℕ

-- `+=` on 64 bits, and the loop over an array.
abbrev pub add_64 : ℕ → ℕ → ℕ
add_64 a b = (a + b) % 2 ^ 64

unfoldable pub add_all : ℕ → List ℕ → ℕ
add_all total [] = total
add_all total (n ∷ ns) = add_all (add_64 total n) ns

unfoldable pub add_peers : Totals → List (List ℕ × List ℕ) → Totals
add_peers t [] = t
add_peers t (peer ∷ rest) =
    add_peers
      (record t {
        rpc_success = add_all t.rpc_success peer.0;
        rpc_failure = add_all t.rpc_failure peer.1;
      })
      rest

module _ {NodeId Metrics : Type 0} (c : Counters Metrics) where
  unfoldable pub add_node_totals : Totals → NodeReport NodeId Metrics → Totals
  add_node_totals t entry =
      add_peers
        (record t {
          peers = add_64 t.peers (c.peer_snapshot_count entry.latest);
          ring_entries = add_64 t.ring_entries (c.ring_entry_count entry.latest);
          connections = add_64 t.connections (c.total_connections entry.latest);
          rpc_calls = add_all t.rpc_calls (c.total_rpc_calls entry.latest);
          rate_limit_accepted =
              add_all t.rate_limit_accepted (c.total_rate_limit_accepted entry.latest);
          rate_limit_rejected =
              add_all t.rate_limit_rejected (c.total_rate_limit_rejected entry.latest);
        })
        (c.peers entry.latest)

  unfoldable pub totals_from : Totals → List (NodeReport NodeId Metrics) → Totals
  totals_from t [] = t
  totals_from t (entry ∷ nodes) = totals_from (add_node_totals t entry) nodes

abbrev pub no_totals : Totals
no_totals = record {
  peers = 0;
  ring_entries = 0;
  connections = 0;
  rpc_calls = 0;
  rpc_success = 0;
  rpc_failure = 0;
  rate_limit_accepted = 0;
  rate_limit_rejected = 0;
}
