-- ===== src/Metrics/Invariant.antt =====
-- The table stays within its bound and holds each node once.
use offs.Base.{
  ℕ, suc, ◌≤◌, true, false, ◌||◌, not, Option, none, some, List, [], ◌∷◌, ◌++◌, leb, length,
  length-append, Bytes, codes, str_eq, ◌≡◌, ◌↔◌, inl, inr, refl, sym, ap, ◌∙◌, arith, Bool-cases,
  Option-cases,
}
use offs.Metrics.{
  max_nodes, NodeReport, Report, Decoded, invalid_cbor, invalid_report, decoded, Request, Network,
  find_node, add_node, find_or_create_node, fill_entry, fill_at, store_at, store, receive,
  handle_report,
}

module _ {NodeId Metrics : Type 0} (net : Network NodeId Metrics) where
  -- No node has two entries.
  abbrev pub Absent : NodeId → List (NodeReport NodeId Metrics) → Type 0
  Absent id nodes = find_node net nodes id ≡ none

  abbrev pub Distinct : List (NodeReport NodeId Metrics) → Type 0
  Distinct [] = Unit
  Distinct (entry ∷ nodes) = Absent entry.node_id nodes × Distinct nodes

  pub record IsTable (nodes : List (NodeReport NodeId Metrics)) : Type 0 where
    pub distinct : Distinct nodes
    pub bounded : length nodes ≤ max_nodes

  -- The table behind a sequence of requests.
  abbrev pub serve :
      List (NodeReport NodeId Metrics) → List Request → List (NodeReport NodeId Metrics)
  serve nodes [] = nodes
  serve nodes (request ∷ requests) = serve (handle_report net nodes request).0 requests

  find_node-fill_at :
      (i : ℕ) (r : Report NodeId Metrics) (nodes : List (NodeReport NodeId Metrics)) (k : NodeId)
      → find_node net (fill_at net i r nodes) k ≡ find_node net nodes k
  unfolding find_node fill_at fill_entry
  find_node-fill_at i r [] k = refl
  find_node-fill_at ℕ.zero r (entry ∷ nodes) k = refl
  find_node-fill_at (suc i) r (entry ∷ nodes) k = rw (find_node-fill_at i r nodes k) refl

  length-fill_at :
      (i : ℕ) (r : Report NodeId Metrics) (nodes : List (NodeReport NodeId Metrics))
      → length (fill_at net i r nodes) ≡ length nodes
  unfolding fill_at
  length-fill_at i r [] = refl
  length-fill_at ℕ.zero r (entry ∷ nodes) = refl
  length-fill_at (suc i) r (entry ∷ nodes) = ap suc (length-fill_at i r nodes)

  Distinct-fill_at :
      (i : ℕ) (r : Report NodeId Metrics) (nodes : List (NodeReport NodeId Metrics))
      → Distinct nodes
      → Distinct (fill_at net i r nodes)
  unfolding fill_at fill_entry
  Distinct-fill_at i r [] h = h
  Distinct-fill_at ℕ.zero r (entry ∷ nodes) h = h
  Distinct-fill_at (suc i) r (entry ∷ nodes) h =
      (find_node-fill_at i r nodes entry.node_id ∙ h.0, Distinct-fill_at i r nodes h.1)

  find_node-append_other :
      (nodes : List (NodeReport NodeId Metrics)) (entry : NodeReport NodeId Metrics) (k : NodeId)
      → find_node net nodes k ≡ none
      → net.node_id_equals entry.node_id k ≡ false
      → find_node net (nodes ++ (entry ∷ [])) k ≡ none
  unfolding find_node
  find_node-append_other [] entry k h e = rw e refl
  find_node-append_other (first ∷ nodes) entry k h e =
      elim (Bool-cases (net.node_id_equals first.node_id k)) [
        | inl e' ↦ absurd (ground arith)
        | inr e' ↦ elim (Option-cases (find_node net nodes k)) [
          | inl m ↦ rw (e', find_node-append_other nodes entry k m e) refl
          | inr (j, m) ↦ absurd (ground arith)
        ]
      ]

  find_node-behind :
      (first : NodeReport NodeId Metrics) (nodes : List (NodeReport NodeId Metrics)) (k : NodeId)
      → find_node net (first ∷ nodes) k ≡ none
      → (net.node_id_equals first.node_id k ≡ false) × (find_node net nodes k ≡ none)
  unfolding find_node
  find_node-behind first nodes k h = elim (Bool-cases (net.node_id_equals first.node_id k)) [
    | inl e ↦ absurd (ground arith)
    | inr e ↦ elim (Option-cases (find_node net nodes k)) [
      | inl m ↦ (e, m)
      | inr (j, m) ↦ absurd (ground arith)
    ]
  ]

  module _ (equals_iff : (a b : NodeId) → (net.node_id_equals a b ≡ true) ↔ (a ≡ b)) where
    equals_sym : (a b : NodeId) → net.node_id_equals a b ≡ false → net.node_id_equals b a ≡ false
    equals_sym a b h = elim (Bool-cases (net.node_id_equals b a)) [
      | inl e ↦
          let same : net.node_id_equals a b ≡ true =
            (equals_iff a b).1 (sym ((equals_iff b a).0 e)) in
          absurd (ground arith)
      | inr e ↦ e
    ]

    Distinct-append :
        (nodes : List (NodeReport NodeId Metrics)) (entry : NodeReport NodeId Metrics)
        → Distinct nodes
        → find_node net nodes entry.node_id ≡ none
        → Distinct (nodes ++ (entry ∷ []))
    unfolding find_node
    Distinct-append [] entry d h = (refl, tt)
    Distinct-append (first ∷ nodes) entry d h =
        let behind = find_node-behind first nodes entry.node_id h in
        (
          find_node-append_other nodes entry first.node_id d.0
              (equals_sym first.node_id entry.node_id behind.0),
          Distinct-append nodes entry d.1 behind.1,
        )

    store-IsTable :
        (nodes : List (NodeReport NodeId Metrics)) (r : Report NodeId Metrics)
        → IsTable nodes
        → IsTable (store net nodes (decoded r)).0
    unfolding store store_at find_or_create_node add_node
    store-IsTable nodes r t = elim (Option-cases (find_node net nodes r.reporter_id)) [
      | inl fresh ↦ elim (Bool-cases (leb max_nodes (length nodes))) [
        | inl full ↦ rw (fresh, full) t
        | inr room ↦
            rw (fresh, room)
              (filled (length nodes) _ (record {
                distinct = Distinct-append nodes _ t.distinct fresh;
                bounded = rw (length-append nodes (_ ∷ [])) (ground arith);
              }))
      ]
      | inr (i, found) ↦ rw found (filled i nodes t)
    ]
      where
        filled :
            (i : ℕ) (made : List (NodeReport NodeId Metrics))
            → IsTable made
            → IsTable (fill_at net i r made)
        filled i made m = record {
          distinct = Distinct-fill_at i r made m.distinct;
          bounded = rw (length-fill_at i r made) m.bounded;
        }

    decoded-IsTable :
        (nodes : List (NodeReport NodeId Metrics)) (d : Decoded NodeId Metrics)
        → IsTable nodes
        → IsTable (store net nodes d).0
    unfolding store
    decoded-IsTable nodes invalid_cbor t = t
    decoded-IsTable nodes invalid_report t = t
    decoded-IsTable nodes (decoded r) t = store-IsTable nodes r t

    receive-IsTable :
        (nodes : List (NodeReport NodeId Metrics)) (body : Option Bytes)
        → IsTable nodes
        → IsTable (receive net nodes body).0
    unfolding receive
    receive-IsTable nodes none t = t
    receive-IsTable nodes (some []) t = t
    receive-IsTable nodes (some (c ∷ cs)) t = decoded-IsTable nodes (net.decode (c ∷ cs)) t

    handle_report-IsTable :
        (nodes : List (NodeReport NodeId Metrics)) (request : Request)
        → IsTable nodes
        → IsTable (handle_report net nodes request).0
    unfolding handle_report
    handle_report-IsTable nodes request t =
        elim (Bool-cases (not request.is_post || not (str_eq request.path (codes "/report")))) [
          | inl e ↦ rw e t
          | inr e ↦ rw e (receive-IsTable nodes request.body t)
        ]

    -- If the comparison of ids decides their equality, and a table holds each node at most once
    -- and at most 256 nodes, then so does the table behind any sequence of requests.
    pub serve-IsTable :
        (requests : List Request) (nodes : List (NodeReport NodeId Metrics))
        → IsTable nodes
        → IsTable (serve nodes requests)
    serve-IsTable [] nodes t = t
    serve-IsTable (request ∷ requests) nodes t =
        serve-IsTable requests (handle_report net nodes request).0
          (handle_report-IsTable nodes request t)
