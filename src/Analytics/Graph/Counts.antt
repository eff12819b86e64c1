-- ===== src/Analytics/Graph/Counts.antt =====
-- The degrees of src/sot_graph/analytics/graph.py are the numbers of edges, cached or not.
use sotgraph.Prelude.{
  ℕ, suc, ◌+◌, ◌≡◌, sym, ap, ap₂, ◌∙◌, subst, Option, none, some, is_some, List, [], ◌∷◌, ◌++◌,
  String, str_eq, eq_iff, length, keep, length-append, length-keep_append, if◌then◌else◌,
  Bool-cases, Option-cases, inl, inr, arith,
}
use sotgraph.Analytics.Graph.{
  Node, Edge, Degrees, Table, Graph, Adjacency, counted_degrees, ensure, with_out, with_in, at,
  add_node, node_degrees, edge_degrees, add_edge, in_degree, out_degree, degree, table_entry,
}

-- How many of the edges end in a node, and start there.
abbrev pub incoming : List Edge → String → ℕ
incoming es n = length (keep (λ e. str_eq n e.dst) es)

abbrev pub outgoing : List Edge → String → ℕ
outgoing es n = length (keep (λ e. str_eq n e.src) es)

-- The entries of the table are the numbers of edges.
abbrev pub IsExact : List Edge → Option Degrees → String → Type 0
IsExact es none n = Unit
IsExact es (some d) n =
    (d.in_cnt ≡ incoming es n)
    × (d.out_cnt ≡ outgoing es n)
    × (d.total ≡ incoming es n + outgoing es n)

abbrev pub AreExact : List Edge → Option Table → Type 0
AreExact es none = Unit
AreExact es (some t) = (n : String) → IsExact es (t n) n

abbrev pub ListsExact : Graph → Type 0
ListsExact g =
    (n : String)
    → (length (g.adj_in n) ≡ incoming g.edges n) × (length (g.adj_out n) ≡ outgoing g.edges n)

abbrev pub Counted : Graph → Type 0
Counted g = ListsExact g × AreExact g.edges g.precomputed_degrees

module _ (g : Graph) (lists : ListsExact g) where
  counted_degrees-IsExact : (n : String) → IsExact g.edges (some (counted_degrees g n)) n
  counted_degrees-IsExact n = let (i, o) = lists n in (i, o, ap₂ (λ a b. a + b) i o)

  ensure-IsExact :
      (t : Table) (n : String)
      → ((k : String) → IsExact g.edges (t k) k)
      → (k : String) → IsExact g.edges (ensure g n t k) k
  ensure-IsExact t n h k = elim (Bool-cases (is_some (t n))) [
    | inl e ↦ rw e (h k)
    | inr e ↦ rw e (elim (Bool-cases (str_eq k n)) [
      | inr d ↦ rw d (h k)
      | inl s ↦
          (let same : k ≡ n = (eq_iff k n).0 s in
            rw s (
              subst (λ x. IsExact g.edges (some (counted_degrees g n)) x) (sym same)
                (counted_degrees-IsExact n)))
    ])
  ]

module _ (g : Graph) (e : Edge) where
  after : List Edge
  after = g.edges ++ (e ∷ [])

  incoming-after :
      (n : String)
      → incoming after n ≡ (if str_eq n e.dst then suc (incoming g.edges n) else incoming g.edges n)
  unfolding after
  incoming-after n = ground (arith, length-keep_append (λ x. str_eq n x.dst) g.edges (e ∷ []))

  outgoing-after :
      (n : String)
      → outgoing after n ≡ (if str_eq n e.src then suc (outgoing g.edges n) else outgoing g.edges n)
  unfolding after
  outgoing-after n = ground (arith, length-keep_append (λ x. str_eq n x.src) g.edges (e ∷ []))

  bump-IsExact :
      (o : Option Degrees) (n : String)
      → IsExact g.edges o n
      → IsExact after
          (if str_eq n e.dst
            then with_in (if str_eq n e.src then with_out o else o)
            else (if str_eq n e.src then with_out o else o))
          n
  bump-IsExact none n h = elim (Bool-cases (str_eq n e.dst)) [
    | inl p ↦ elim (Bool-cases (str_eq n e.src)) [ inl q ↦ rw p (rw q tt) | inr q ↦ rw p (rw q tt) ]
    | inr p ↦ elim (Bool-cases (str_eq n e.src)) [ inl q ↦ rw p (rw q tt) | inr q ↦ rw p (rw q tt) ]
  ]
  bump-IsExact (some d) n (i, o, t) =
      let ia = incoming-after n in
      let oa = outgoing-after n in
      elim (Bool-cases (str_eq n e.dst)) [
        | inl p ↦ elim (Bool-cases (str_eq n e.src)) [
          | inl q ↦ rw p (rw q (ground arith, ground arith, ground arith))
          | inr q ↦ rw p (rw q (ground arith, ground arith, ground arith))
        ]
        | inr p ↦ elim (Bool-cases (str_eq n e.src)) [
          | inl q ↦ rw p (rw q (ground arith, ground arith, ground arith))
          | inr q ↦ rw p (rw q (ground arith, ground arith, ground arith))
        ]
      ]

  length-at :
      (end : String) (x : String × String) (l : Adjacency) (n : String)
      → length (at end (λ y. y ++ (x ∷ [])) l n)
        ≡ (if str_eq n end then suc (length (l n)) else length (l n))
  length-at end x l n = ground (arith, length-append (l n) (x ∷ []))

  add_edge-lists : ListsExact g → ListsExact (add_edge e g)
  unfolding add_edge after
  add_edge-lists h n =
      let (i, o) = h n in
      (
        length-at e.dst (e.src, e.relation) g.adj_in n
            ∙ ap (λ c. if str_eq n e.dst then suc c else c) i
            ∙ sym (incoming-after n),
        length-at e.src (e.dst, e.relation) g.adj_out n
            ∙ ap (λ c. if str_eq n e.src then suc c else c) o
            ∙ sym (outgoing-after n),
      )

  edge_degrees-exact :
      ListsExact g → (o : Option Table) → AreExact g.edges o → AreExact after (edge_degrees g e o)
  edge_degrees-exact lists none h = tt
  edge_degrees-exact lists (some t) h = λ n.
      bump-IsExact _ n
        (ensure-IsExact g lists (ensure g e.src t) e.dst (ensure-IsExact g lists t e.src h) n)

  pub add_edge-Counted : Counted g → Counted (add_edge e g)
  unfolding add_edge after
  add_edge-Counted (lists, h) =
      (add_edge-lists lists, edge_degrees-exact lists g.precomputed_degrees h)

module _ (n : Node) (g : Graph) where
  node_degrees-exact :
      ListsExact g
      → (o : Option Table) → AreExact g.edges o
      → AreExact g.edges (node_degrees g n.id o)
  node_degrees-exact lists none h = tt
  node_degrees-exact lists (some t) h = ensure-IsExact g lists t n.id h

  pub add_node-Counted : Counted g → Counted (add_node n g)
  unfolding add_node
  add_node-Counted (lists, h) = (lists, node_degrees-exact lists g.precomputed_degrees h)

entry-IsExact :
    (es : List Edge) (o : Option Table) (n : String)
    → AreExact es o
    → IsExact es (table_entry o n) n
entry-IsExact es none n h = tt
entry-IsExact es (some t) n h = h n

-- The three degrees of a node, where the table and the lists count the edges.
pub degrees-Counted :
    (g : Graph) (n : String)
    → Counted g
    → (in_degree g n ≡ incoming g.edges n)
      × (out_degree g n ≡ outgoing g.edges n)
      × (degree g n ≡ incoming g.edges n + outgoing g.edges n)
unfolding in_degree out_degree degree
degrees-Counted g n (lists, h) =
    let (i, o) = lists n in
    let exact = entry-IsExact g.edges g.precomputed_degrees n h in
    elim (Option-cases (table_entry g.precomputed_degrees n)) [
      | inl e ↦
          (let into : in_degree g n ≡ incoming g.edges n = rw (in_degree, e) i in
            let out : out_degree g n ≡ outgoing g.edges n = rw (out_degree, e) o in
            (into, out, rw (degree, e) (ap₂ (λ a b. a + b) into out)))
      | inr (d, e) ↦
          rw (in_degree, out_degree, degree, e) (subst (λ x. IsExact g.edges x n) e exact)
    ]
