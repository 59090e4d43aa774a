-- ===== src/Metrics/Sums.antt =====
-- The totals of /metrics are sums modulo 2 ^ 64.
use offs.Base.{ℕ, ◌+◌, ◌%◌, ◌^◌, ◌<◌, List, [], ◌∷◌, ◌≡◌, ap, ◌∙◌, arith}
use offs.Metrics.{
  NodeReport, Counters, Totals, add_64, add_all, add_peers, add_node_totals, totals_from, no_totals,
}

abbrev pub sum : List ℕ → ℕ
sum [] = 0
sum (n ∷ ns) = n + sum ns

add_all-sum :
    (total : ℕ) (ns : List ℕ) → total < 2 ^ 64 → add_all total ns ≡ (total + sum ns) % 2 ^ 64
unfolding add_all
add_all-sum total [] h = omega arith
add_all-sum total (n ∷ ns) h = omega (arith, add_all-sum (add_64 total n) ns (omega arith))

-- The successes and failures of all the peers of a node.
abbrev pub successes : List (List ℕ × List ℕ) → ℕ
successes [] = 0
successes (peer ∷ rest) = sum peer.0 + successes rest

abbrev pub failures : List (List ℕ × List ℕ) → ℕ
failures [] = 0
failures (peer ∷ rest) = sum peer.1 + failures rest

add_peers-sums :
    (t : Totals) (peers : List (List ℕ × List ℕ))
    → t.rpc_success < 2 ^ 64
    → t.rpc_failure < 2 ^ 64
    → add_peers t peers ≡ record t {
      rpc_success = (t.rpc_success + successes peers) % 2 ^ 64;
      rpc_failure = (t.rpc_failure + failures peers) % 2 ^ 64;
    }
unfolding add_peers
add_peers-sums t [] h k = ground arith
add_peers-sums t (peer ∷ rest) h k =
    let t1 = record t {
      rpc_success = add_all t.rpc_success peer.0;
      rpc_failure = add_all t.rpc_failure peer.1;
    } in
    let s1 = add_all-sum t.rpc_success peer.0 h in
    let f1 = add_all-sum t.rpc_failure peer.1 k in
    let s2 : (add_all t.rpc_success peer.0 + successes rest) % 2 ^ 64
        ≡ (t.rpc_success + (sum peer.0 + successes rest)) % 2 ^ 64 =
      omega (arith, s1) in
    let f2 : (add_all t.rpc_failure peer.1 + failures rest) % 2 ^ 64
        ≡ (t.rpc_failure + (sum peer.1 + failures rest)) % 2 ^ 64 =
      omega (arith, f1) in
    add_peers-sums t1 rest (omega (arith, s1)) (omega (arith, f1))
    ∙ ap
        (λ (p : ℕ). record t {
          rpc_success = p;
          rpc_failure = (add_all t.rpc_failure peer.1 + failures rest) % 2 ^ 64;
        })
        s2
    ∙ ap
        (λ (p : ℕ). record t {
          rpc_success = (t.rpc_success + (sum peer.0 + successes rest)) % 2 ^ 64;
          rpc_failure = p;
        })
        f2

record Bounded (t : Totals) : Type 0 where
  peers_lt : t.peers < 2 ^ 64
  ring_entries_lt : t.ring_entries < 2 ^ 64
  connections_lt : t.connections < 2 ^ 64
  rpc_calls_lt : t.rpc_calls < 2 ^ 64
  rpc_success_lt : t.rpc_success < 2 ^ 64
  rpc_failure_lt : t.rpc_failure < 2 ^ 64
  accepted_lt : t.rate_limit_accepted < 2 ^ 64
  rejected_lt : t.rate_limit_rejected < 2 ^ 64

module _ {Metrics : Type 0} (c : Counters Metrics) where
  -- The totals behind one node.
  abbrev behind_node : Totals → Metrics → Totals
  behind_node t m = record {
    peers = add_64 t.peers (c.peer_snapshot_count m);
    ring_entries = add_64 t.ring_entries (c.ring_entry_count m);
    connections = add_64 t.connections (c.total_connections m);
    rpc_calls = (t.rpc_calls + sum (c.total_rpc_calls m)) % 2 ^ 64;
    rpc_success = (t.rpc_success + successes (c.peers m)) % 2 ^ 64;
    rpc_failure = (t.rpc_failure + failures (c.peers m)) % 2 ^ 64;
    rate_limit_accepted = (t.rate_limit_accepted + sum (c.total_rate_limit_accepted m)) % 2 ^ 64;
    rate_limit_rejected = (t.rate_limit_rejected + sum (c.total_rate_limit_rejected m)) % 2 ^ 64;
  }

  behind_node-Bounded : (t : Totals) (m : Metrics) → Bounded (behind_node t m)
  behind_node-Bounded t m = record {
    peers_lt = omega arith;
    ring_entries_lt = omega arith;
    connections_lt = omega arith;
    rpc_calls_lt = omega arith;
    rpc_success_lt = omega arith;
    rpc_failure_lt = omega arith;
    accepted_lt = omega arith;
    rejected_lt = omega arith;
  }

  module _ {NodeId : Type 0} where
    -- A sum over the latest metrics of all the nodes.
    abbrev pub over : (Metrics → ℕ) → List (NodeReport NodeId Metrics) → ℕ
    over f [] = 0
    over f (entry ∷ nodes) = f entry.latest + over f nodes

    pub record Adds (before after : Totals) (nodes : List (NodeReport NodeId Metrics))
        : Type 0 where
      pub peers : after.peers ≡ (before.peers + over c.peer_snapshot_count nodes) % 2 ^ 64
      pub ring_entries :
          after.ring_entries ≡ (before.ring_entries + over c.ring_entry_count nodes) % 2 ^ 64
      pub connections :
          after.connections ≡ (before.connections + over c.total_connections nodes) % 2 ^ 64
      pub rpc_calls :
          after.rpc_calls
          ≡ (before.rpc_calls + over (λ m. sum (c.total_rpc_calls m)) nodes) % 2 ^ 64
      pub rpc_success :
          after.rpc_success
          ≡ (before.rpc_success + over (λ m. successes (c.peers m)) nodes) % 2 ^ 64
      pub rpc_failure :
          after.rpc_failure ≡ (before.rpc_failure + over (λ m. failures (c.peers m)) nodes) % 2 ^ 64
      pub rate_limit_accepted :
          after.rate_limit_accepted
          ≡ (before.rate_limit_accepted + over (λ m. sum (c.total_rate_limit_accepted m)) nodes)
            % 2 ^ 64
      pub rate_limit_rejected :
          after.rate_limit_rejected
          ≡ (before.rate_limit_rejected + over (λ m. sum (c.total_rate_limit_rejected m)) nodes)
            % 2 ^ 64

    add_node_totals-behind :
        (t : Totals) (entry : NodeReport NodeId Metrics)
        → Bounded t
        → add_node_totals c t entry ≡ behind_node t entry.latest
    unfolding add_node_totals
    add_node_totals-behind t entry h =
        rw
          (
            add_all-sum t.rpc_calls (c.total_rpc_calls entry.latest) h.rpc_calls_lt,
            add_all-sum t.rate_limit_accepted (c.total_rate_limit_accepted entry.latest)
                h.accepted_lt,
            add_all-sum t.rate_limit_rejected (c.total_rate_limit_rejected entry.latest)
                h.rejected_lt,
          )
          (add_peers-sums _ (c.peers entry.latest) h.rpc_success_lt h.rpc_failure_lt)

    totals_from-Adds_from :
        (t : Totals) (nodes : List (NodeReport NodeId Metrics))
        → Bounded t
        → Adds t (totals_from c t nodes) nodes
    unfolding totals_from
    totals_from-Adds_from t [] h = record {
      peers = omega arith;
      ring_entries = omega arith;
      connections = omega arith;
      rpc_calls = omega arith;
      rpc_success = omega arith;
      rpc_failure = omega arith;
      rate_limit_accepted = omega arith;
      rate_limit_rejected = omega arith;
    }
    totals_from-Adds_from t (entry ∷ nodes) h =
        let u = behind_node t entry.latest in
        let w = totals_from-Adds_from u nodes (behind_node-Bounded t entry.latest) in
        rw (add_node_totals-behind t entry h) (record {
          peers = omega (arith, w.peers);
          ring_entries = omega (arith, w.ring_entries);
          connections = omega (arith, w.connections);
          rpc_calls = omega (arith, w.rpc_calls);
          rpc_success = omega (arith, w.rpc_success);
          rpc_failure = omega (arith, w.rpc_failure);
          rate_limit_accepted = omega (arith, w.rate_limit_accepted);
          rate_limit_rejected = omega (arith, w.rate_limit_rejected);
        })

    -- Each sum of /metrics is the sum over the latest metrics of all the nodes, modulo 2 ^ 64.
    pub totals_from-Adds :
        (nodes : List (NodeReport NodeId Metrics))
        → Adds no_totals (totals_from c no_totals nodes) nodes
    totals_from-Adds nodes = totals_from-Adds_from no_totals nodes (record {
      peers_lt = omega arith;
      ring_entries_lt = omega arith;
      connections_lt = omega arith;
      rpc_calls_lt = omega arith;
      rpc_success_lt = omega arith;
      rpc_failure_lt = omega arith;
      accepted_lt = omega arith;
      rejected_lt = omega arith;
    })
