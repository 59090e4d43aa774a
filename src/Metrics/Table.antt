-- ===== src/Metrics/Table.antt =====
-- The table of nodes as a map.
use offs.Base.{
  ℕ, suc, true, false, ◌<◌, Option, none, some, List, [], ◌∷◌, ◌++◌, leb, if◌then◌else◌, length,
  ◌≡◌, ◌↔◌, inl, inr, refl, sym, ap, ◌∙◌, arith, Bool-cases, Option-cases,
}
use offs.Metrics.{
  max_nodes, NodeReport, Report, decoded, ok, Network, add_report, find_node, add_node,
  find_or_create_node, fill_entry, fill_at, store_at, store,
}

-- INT_MAX
unfoldable pub int_max : ℕ
int_max = 2147483647

add_report-suc : (count : ℕ) → count < int_max → add_report count ≡ suc count
unfolding add_report int_max
add_report-suc count small = omega arith

module _ {NodeId Metrics : Type 0} (net : Network NodeId Metrics) where
  -- What the table holds for a node.
  unfoldable pub lookup_node :
      List (NodeReport NodeId Metrics) → NodeId → Option (NodeReport NodeId Metrics)
  lookup_node [] id = none
  lookup_node (entry ∷ nodes) id =
      let behind = lookup_node nodes id in
      if net.node_id_equals entry.node_id id then some entry else behind

  -- The entry that a report makes of the node's earlier one, if there is one.
  abbrev pub reported :
      Report NodeId Metrics → Option (NodeReport NodeId Metrics) → NodeReport NodeId Metrics
  reported r none = record {
    node_id = r.reporter_id;
    last_seen_ms = r.timestamp_ms;
    latest = r.metrics;
    report_count = 1;
  }
  reported r (some entry) = record entry {
    last_seen_ms = r.timestamp_ms;
    latest = r.metrics;
    report_count = suc entry.report_count;
  }

  -- The number of reports of an entry, if there is one.
  abbrev pub count_of : Option (NodeReport NodeId Metrics) → ℕ
  count_of none = 0
  count_of (some entry) = entry.report_count

  module _ (equals_iff : (a b : NodeId) → (net.node_id_equals a b ≡ true) ↔ (a ≡ b)) where
    lookup-fill_at :
        (nodes : List (NodeReport NodeId Metrics)) (r : Report NodeId Metrics) (i : ℕ) (k : NodeId)
        → find_node net nodes r.reporter_id ≡ some i
        → count_of (lookup_node nodes r.reporter_id) < int_max
        → lookup_node (fill_at net i r nodes) k ≡ (
            if net.node_id_equals r.reporter_id k
            then some (reported r (lookup_node nodes r.reporter_id))
            else lookup_node nodes k)
    unfolding lookup_node find_node fill_at fill_entry
    lookup-fill_at [] r i k h small = absurd (ground arith)
    lookup-fill_at (entry ∷ nodes) r ℕ.zero k h small =
        elim (Bool-cases (net.node_id_equals entry.node_id r.reporter_id)) [
          | inl e ↦
              let same : entry.node_id ≡ r.reporter_id =
                (equals_iff entry.node_id r.reporter_id).0 e in
              elim (Bool-cases (net.node_id_equals r.reporter_id k)) [
                | inl b ↦ rw (e, same, b, add_report-suc entry.report_count (rw e at small)) refl
                | inr b ↦ rw (e, same, b) refl
              ]
          | inr e ↦ absurd (ground arith)
        ]
    lookup-fill_at (entry ∷ nodes) r (suc i) k h small =
        elim (Bool-cases (net.node_id_equals entry.node_id r.reporter_id)) [
          | inl e ↦ absurd (ground arith)
          | inr e ↦
              let same : find_node net nodes r.reporter_id ≡ some i = ground arith in
              let rest = lookup-fill_at nodes r i k same (rw e at small) in
              ground (
                arith,
                equals_iff entry.node_id k,
                equals_iff r.reporter_id k,
                equals_iff entry.node_id r.reporter_id,
              )
        ]

    find_node-append :
        (nodes : List (NodeReport NodeId Metrics)) (entry : NodeReport NodeId Metrics)
        → find_node net nodes entry.node_id ≡ none
        → find_node net (nodes ++ (entry ∷ [])) entry.node_id ≡ some (length nodes)
    unfolding find_node
    find_node-append [] entry h = rw ((equals_iff entry.node_id entry.node_id).1 refl) refl
    find_node-append (first ∷ nodes) entry h =
        elim (Bool-cases (net.node_id_equals first.node_id entry.node_id)) [
          | inl e ↦ absurd (ground arith)
          | inr e ↦ elim (Option-cases (find_node net nodes entry.node_id)) [
            | inl k ↦ rw (e, find_node-append nodes entry k) refl
            | inr (j, k) ↦ absurd (ground arith)
          ]
        ]

    lookup-append_none :
        (nodes : List (NodeReport NodeId Metrics)) (entry : NodeReport NodeId Metrics) (k : NodeId)
        → lookup_node nodes k ≡ none
        → lookup_node (nodes ++ (entry ∷ [])) k ≡ lookup_node (entry ∷ []) k
    unfolding lookup_node
    lookup-append_none [] entry k h = refl
    lookup-append_none (first ∷ nodes) entry k h =
        elim (Bool-cases (net.node_id_equals first.node_id k)) [
          | inl e ↦ absurd (ground arith)
          | inr e ↦ rw e (lookup-append_none nodes entry k (rw e at h))
        ]

    lookup-append_other :
        (nodes : List (NodeReport NodeId Metrics)) (entry : NodeReport NodeId Metrics) (k : NodeId)
        → net.node_id_equals entry.node_id k ≡ false
        → lookup_node (nodes ++ (entry ∷ [])) k ≡ lookup_node nodes k
    unfolding lookup_node
    lookup-append_other [] entry k h = rw h refl
    lookup-append_other (first ∷ nodes) entry k h =
        elim (Bool-cases (net.node_id_equals first.node_id k)) [
          | inl e ↦ rw e refl
          | inr e ↦ rw e (lookup-append_other nodes entry k h)
        ]

    lookup-none :
        (nodes : List (NodeReport NodeId Metrics)) (k : NodeId)
        → find_node net nodes k ≡ none
        → lookup_node nodes k ≡ none
    unfolding lookup_node find_node
    lookup-none [] k h = refl
    lookup-none (first ∷ nodes) k h = elim (Bool-cases (net.node_id_equals first.node_id k)) [
      | inl e ↦ absurd (ground arith)
      | inr e ↦ elim (Option-cases (find_node net nodes k)) [
        | inl m ↦ rw e (lookup-none nodes k m)
        | inr (j, m) ↦ absurd (ground arith)
      ]
    ]

    new_entry : Report NodeId Metrics → NodeReport NodeId Metrics
    new_entry r = record {
      node_id = r.reporter_id;
      last_seen_ms = 0;
      latest = net.no_metrics;
      report_count = 0;
    }

    lookup-created :
        (nodes : List (NodeReport NodeId Metrics)) (r : Report NodeId Metrics) (k : NodeId)
        → find_node net nodes r.reporter_id ≡ none
        → lookup_node (fill_at net (length nodes) r (nodes ++ (new_entry r ∷ []))) k ≡ (
            if net.node_id_equals r.reporter_id k
            then some (reported r none)
            else lookup_node nodes k)
    unfolding new_entry lookup_node int_max
    lookup-created nodes r k fresh =
        let made = nodes ++ (new_entry r ∷ []) in
        let itself = (equals_iff r.reporter_id r.reporter_id).1 refl in
        let at_new : lookup_node made r.reporter_id ≡ some (new_entry r) =
          lookup-append_none nodes (new_entry r) r.reporter_id
            (lookup-none nodes r.reporter_id fresh)
          ∙ rw itself refl in
        let filled =
          lookup-fill_at made r (length nodes) k (find_node-append nodes (new_entry r) fresh)
            (rw at_new (omega arith)) in
        elim (Bool-cases (net.node_id_equals r.reporter_id k)) [
          | inl e ↦ rw e (filled ∙ rw (e, at_new) refl)
          | inr e ↦ rw e (filled ∙ rw e (lookup-append_other nodes (new_entry r) k e))
        ]

    -- If the comparison of ids decides their equality, a report that is stored sets the entry of
    -- its node, where that has fewer than INT_MAX reports; it then has the report's metrics and time and one report more, and changes that
    -- of no other node. `reported` says what becomes of the earlier entry.
    pub store-lookup :
        (nodes nodes' : List (NodeReport NodeId Metrics)) (r : Report NodeId Metrics) (k : NodeId)
        → store net nodes (decoded r) ≡ (nodes', ok)
        → count_of (lookup_node nodes r.reporter_id) < int_max
        → lookup_node nodes' k ≡ (
            if net.node_id_equals r.reporter_id k
            then some (reported r (lookup_node nodes r.reporter_id))
            else lookup_node nodes k)
    unfolding store store_at find_or_create_node add_node new_entry
    store-lookup nodes nodes' r k h small =
        elim (Option-cases (find_node net nodes r.reporter_id)) [
          | inl fresh ↦ elim (Bool-cases (leb max_nodes (length nodes))) [
            | inl full ↦ absurd (ground arith)
            | inr room ↦
                let same : fill_at net (length nodes) r (nodes ++ (new_entry r ∷ [])) ≡ nodes' =
                  ground arith in
                rw (lookup-none nodes r.reporter_id fresh)
                  (sym (ap (λ n. lookup_node n k) same) ∙ lookup-created nodes r k fresh)
          ]
          | inr (i, found) ↦
              let same : fill_at net i r nodes ≡ nodes' = ground arith in
              sym (ap (λ n. lookup_node n k) same) ∙ lookup-fill_at nodes r i k found small
        ]
