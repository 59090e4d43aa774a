-- ===== src/Metrics/Status.antt =====
-- The page of the metrics server with all nodes: `_handle_status`
-- (src/offs-metrics/metrics_server.c). The values are those that are given to cJSON.
use offs.Base.{
  ℕ, ◌<◌, zero, suc, ◌*◌, ◌%◌, ◌^◌, Bool, true, false, ◌||◌, not, Option, none, some, List, [], ◌∷◌,
  take, length, if◌then◌else◌, ltb, Bytes, codes, str_eq, ◌↔◌, ◌≡◌, refl, sym, ap, ◌∙◌, Bool-cases,
  inl, inr,
}
use offs.Metrics.{NodeReport, Report, decoded, ok, Network, store, add_all}
use offs.Metrics.Table.{int_max, count_of, lookup_node, reported, store-lookup}

-- The fields of a peer's snapshot and of a node's metrics that the page shows; weights and times
-- of round trips are floating point.
pub record Shown (NodeId Metrics Real : Type 0) : Type 0 where
  pub peer_snapshot_count : Metrics → ℕ
  pub ring_entry_count : Metrics → ℕ
  pub total_connections : Metrics → ℕ
  pub avg_hebbian_weight : Metrics → Real
  -- node_id, hebbian_weight, rtt_ewma_ms, connected and rpc_count of the snapshots
  pub snapshots : Metrics → List (NodeId × Real × Real × Bool × List ℕ)

pub record PeerStatus (NodeId Real : Type 0) : Type 0 where
  pub peer_id : NodeId
  pub hebbian_weight : Real
  pub rtt_ewma_ms : Real
  pub connected : Bool
  pub total_rpc_calls : ℕ

-- `peers` is left out where there is no snapshot.
pub record NodeStatus (NodeId Real : Type 0) : Type 0 where
  pub node_id : NodeId
  pub last_seen_ms : ℕ
  pub report_count : ℕ
  pub peer_count : ℕ
  pub ring_entry_count : ℕ
  pub total_connections : ℕ
  pub avg_hebbian_weight : Real
  pub peers : Option (List (PeerStatus NodeId Real))

pub record Status (NodeId Real : Type 0) : Type 0 where
  pub node_count : ℕ
  pub timestamp_ms : ℕ
  pub nodes : List (NodeStatus NodeId Real)

-- `declined` leaves the request to the other handlers; `failed` is the status 500.
pub data Page (A : Type 0) : Type 0 where
  declined failed : Page A
  shown : A → Page A

module _ {NodeId Metrics Real : Type 0} (view : Shown NodeId Metrics Real) where
  -- One peer, with the calls of the first five types.
  unfoldable pub show_peer : NodeId × Real × Real × Bool × List ℕ → PeerStatus NodeId Real
  show_peer (id, weight, rtt, connected, rpc_count) = record {
    peer_id = id;
    hebbian_weight = weight;
    rtt_ewma_ms = rtt;
    connected = connected;
    total_rpc_calls = add_all 0 (take 5 rpc_count);
  }

  -- The loop over the snapshots, with the number that may still be shown.
  unfoldable pub show_peers :
      ℕ → List (NodeId × Real × Real × Bool × List ℕ) → List (PeerStatus NodeId Real)
  show_peers zero snapshots = []
  show_peers (suc room) [] = []
  show_peers (suc room) (snapshot ∷ snapshots) = show_peer snapshot ∷ show_peers room snapshots

  -- One node.
  unfoldable pub show_node : NodeReport NodeId Metrics → NodeStatus NodeId Real
  show_node entry = record {
    node_id = entry.node_id;
    last_seen_ms = entry.last_seen_ms;
    report_count = entry.report_count;
    peer_count = view.peer_snapshot_count entry.latest;
    ring_entry_count = view.ring_entry_count entry.latest;
    total_connections = view.total_connections entry.latest;
    avg_hebbian_weight = view.avg_hebbian_weight entry.latest;
    peers =
        if ltb 0 (view.peer_snapshot_count entry.latest)
        then some (show_peers 20 (view.snapshots entry.latest))
        else none;
  }

  -- The loop over g_nodes.
  unfoldable pub show_nodes : List (NodeReport NodeId Metrics) → List (NodeStatus NodeId Real)
  show_nodes [] = []
  show_nodes (entry ∷ nodes) = show_node entry ∷ show_nodes nodes

  -- `is_get` is the request's method, `now` the time in seconds, `prints` whether cJSON_Print gives
  -- a text.
  unfoldable pub handle_status :
      Bool → Bytes → ℕ → Bool → List (NodeReport NodeId Metrics) → Page (Status NodeId Real)
  handle_status is_get path now prints nodes =
      if not is_get || not (str_eq path (codes "/status"))
      then declined
      else if prints
      then shown (record {
        node_count = length nodes;
        timestamp_ms = (now * 1000) % 2 ^ 64;
        nodes = show_nodes nodes;
      })
      else failed

  -- What the page says of a node.
  unfoldable pub lookup_status :
      (NodeId → NodeId → Bool)
      → List (NodeStatus NodeId Real)
      → NodeId
      → Option (NodeStatus NodeId Real)
  lookup_status equals [] id = none
  lookup_status equals (status ∷ rest) id =
      let behind = lookup_status equals rest id in
      if equals status.node_id id then some status else behind

  -- The page's entry of a node that the table holds.
  abbrev pub show_found : Option (NodeReport NodeId Metrics) → Option (NodeStatus NodeId Real)
  show_found none = none
  show_found (some entry) = some (show_node entry)

  lookup_status-show_nodes :
      (net : Network NodeId Metrics) (nodes : List (NodeReport NodeId Metrics)) (id : NodeId)
      → lookup_status net.node_id_equals (show_nodes nodes) id
        ≡ show_found (lookup_node net nodes id)
  unfolding lookup_status lookup_node show_nodes show_node
  lookup_status-show_nodes net [] id = refl
  lookup_status-show_nodes net (first ∷ nodes) id =
      elim (Bool-cases (net.node_id_equals first.node_id id)) [
        | inl e ↦ rw e refl
        | inr e ↦ rw e (lookup_status-show_nodes net nodes id)
      ]

  module _ (net : Network NodeId Metrics)
      (equals_iff : (a b : NodeId) → (net.node_id_equals a b ≡ true) ↔ (a ≡ b)) where
    -- If the comparison of ids decides their equality, /status shows every node with the figures of
    -- its last report: after a report is stored, where its node has fewer than INT_MAX of them, the page's entry of its node is that of the report,
    -- with one report more, and the entries of all other nodes are as before.
    pub lookup_status-store :
        (nodes nodes' : List (NodeReport NodeId Metrics)) (r : Report NodeId Metrics) (id : NodeId)
        → store net nodes (decoded r) ≡ (nodes', ok)
        → count_of net (lookup_node net nodes r.reporter_id) < int_max
        → lookup_status net.node_id_equals (show_nodes nodes') id ≡ (
            if net.node_id_equals r.reporter_id id
            then some (show_node (reported net r (lookup_node net nodes r.reporter_id)))
            else lookup_status net.node_id_equals (show_nodes nodes) id)
    lookup_status-store nodes nodes' r id stored small =
        lookup_status-show_nodes net nodes' id
        ∙ ap show_found (store-lookup net equals_iff nodes nodes' r id stored small)
        ∙ push (net.node_id_equals r.reporter_id id)
      where
        push :
            (b : Bool)
            → show_found (
                if b
                then some (reported net r (lookup_node net nodes r.reporter_id))
                else lookup_node net nodes id)
              ≡ (if b
                  then some (show_node (reported net r (lookup_node net nodes r.reporter_id)))
                  else lookup_status net.node_id_equals (show_nodes nodes) id)
        push true = refl
        push false = sym (lookup_status-show_nodes net nodes id)
