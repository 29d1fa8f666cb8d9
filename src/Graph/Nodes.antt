-- ===== src/Graph/Nodes.antt =====
-- The nodes of a new graph (engine/internal/graph.go).
use go_bpmn.Shared.{
  some-injective, ==_iff, ℕ, ◌≡◌, refl, ap, sym, subst, ◌∙◌, true, ◌⊎◌, String, some, List, [], ◌∷◌,
  ok, >>=-eq-ok, ok-injective, All, length, ◌==◌, if◌then◌else◌, str_eq, eq_iff, lookup, insert,
  lookup-insert, Bool-cases, Option-cases, inl, inr,
}
use go_bpmn.Enum.ElementType.{same, process}
use go_bpmn.Model.Element.{Objects}
use go_bpmn.Model.Kinds.{is_task_or_scope}
use go_bpmn.Model.Lookup.{attached_to}
use go_bpmn.Entity.{ElementEntity}
use go_bpmn.Graph.Node.{Node, Graph}
use go_bpmn.Graph.Build.{element_map, new_node, add_nodes, find_node, new_graph}

abbrev Entities : Type 0
Entities = List (String × ElementEntity)

abbrev Nodes : Type 0
Nodes = List (String × Node)

-- The entity is one of the list.
abbrev pub IsAmong : List ElementEntity → ElementEntity → Type 0
IsAmong [] e = ⊥
IsAmong (x ∷ xs) e = (x ≡ e) ⊎ IsAmong xs e

-- An entity that is found under an ID has that ID, and is one of the list.
abbrev Given : List ElementEntity → String → ElementEntity → Type 0
Given es id e = (e.bpmn_element_id ≡ id) × IsAmong es e

all-Given :
    (xs es : List ElementEntity)
    → ((x : ElementEntity) → IsAmong xs x → IsAmong es x)
    → All (λ x. Given es x.bpmn_element_id x) xs
all-Given [] es h = tt
all-Given (x ∷ xs) es h = ((refl, h x (inl refl)), all-Given xs es (λ y m. h y (inr m)))

element_map-Given :
    (es all : List ElementEntity) (m : Entities)
    → All (λ x. Given all x.bpmn_element_id x) es
    → ((id : String) (e : ElementEntity) → lookup id m ≡ some e → Given all id e)
    → (id : String) (e : ElementEntity) → lookup id (element_map m es) ≡ some e
    → Given all id e
unfolding element_map
element_map-Given [] all m a given id e h = given id e h
element_map-Given (x ∷ es) all m a given id e h =
    element_map-Given es all (insert x.bpmn_element_id x m) a.1 inserted id e h
  where
    inserted :
        (j : String) (y : ElementEntity)
        → lookup j (insert x.bpmn_element_id x m) ≡ some y
        → Given all j y
    inserted j y found = elim (Bool-cases (str_eq x.bpmn_element_id j)) [
      | inl hit ↦
          let is_x : some x ≡ some y =
            rw hit at (sym (lookup-insert j x.bpmn_element_id x m) ∙ found) in
          subst (Given all j) (some-injective is_x)
            (subst (λ k. Given all k x) ((eq_iff x.bpmn_element_id j).0 hit) a.0)
      | inr miss ↦ given j y (rw miss at (sym (lookup-insert j x.bpmn_element_id x m) ∙ found))
    ]

-- A node of an element with that ID, which is the node of the entity of the list with that ID.
pub record IsNode (o : Objects) (es : List ElementEntity) (id : String) (n : Node) : Type 0 where
  pub entity : ElementEntity
  pub given : IsAmong es entity
  pub element_id : (o.element n.bpmn_element).id ≡ id
  pub entity_id : entity.bpmn_element_id ≡ id
  pub same_id : n.id ≡ entity.id
  pub same_kind : n.is_multi_instance ≡ entity.is_multi_instance
  pub boundary_events :
      n.boundary_events
      ≡ (if is_task_or_scope (o.element n.bpmn_element).type then attached_to o id else [])

abbrev pub HasNode : Objects → List ElementEntity → Nodes → String → Type 0
HasNode o es nodes id = (n : Node) × (lookup id nodes ≡ some n) × IsNode o es id n

module _ (o : Objects) (es : List ElementEntity) (m : Entities)
    (given : (id : String) (e : ElementEntity) → lookup id m ≡ some e → Given es id e) where
  new_node-IsNode :
      (b : ℕ) (e : ElementEntity)
      → lookup (o.element b).id m ≡ some e
      → IsNode o es (o.element b).id (new_node o b e)
  unfolding new_node
  new_node-IsNode b e h = record {
    entity = e;
    given = (given (o.element b).id e h).1;
    element_id = refl;
    entity_id = (given (o.element b).id e h).0;
    same_id = refl;
    same_kind = refl;
    boundary_events = refl;
  }

  insert-HasNode :
      (nodes : Nodes) (key id : String) (n : Node)
      → IsNode o es key n
      → HasNode o es nodes id ⊎ (key ≡ id)
      → HasNode o es (insert key n nodes) id
  insert-HasNode nodes key id n is_node given = elim (Bool-cases (str_eq key id)) [
    | inl hit ↦ (
      n,
      lookup-insert id key n nodes ∙ rw hit refl,
      subst (λ k. IsNode o es k n) ((eq_iff key id).0 hit) is_node,
    )
    | inr miss ↦ elim given [
      | inl (k, found, is_k) ↦ (k, lookup-insert id key n nodes ∙ rw miss found, is_k)
      | inr eq ↦ absurd (cc ((eq_iff key id).1 eq, miss))
    ]
  ]

  add_nodes-HasNode :
      (bs : List ℕ) (nodes nodes' : Nodes)
      → add_nodes o m nodes bs ≡ ok nodes'
      → ((id : String) → HasNode o es nodes id → HasNode o es nodes' id)
        × All (λ b. HasNode o es nodes' (o.element b).id) bs
  unfolding add_nodes
  add_nodes-HasNode [] nodes nodes' h =
      (λ id has. subst (λ ns. HasNode o es ns id) (ok-injective h) has, tt)
  add_nodes-HasNode (b ∷ bs) nodes nodes' h = elim (Option-cases (lookup (o.element b).id m)) [
    | inl missing ↦ absurd (cc (rw (add_nodes, missing) at h))
    | inr (e, found) ↦
        let is_node = new_node-IsNode b e found in
        let (kept, others) =
          add_nodes-HasNode bs (insert (o.element b).id (new_node o b e) nodes) nodes'
            (rw (add_nodes, found) at h) in
        (
          λ id has.
              kept id (insert-HasNode nodes (o.element b).id id (new_node o b e) is_node (inl has)),
          (
            kept (o.element b).id (
                insert-HasNode nodes (o.element b).id (o.element b).id (new_node o b e) is_node
                  (inr refl)),
            others,
          ),
        )
  ]

-- What a new graph has for an element.
abbrev pub Finds : Objects → List ElementEntity → Graph → ℕ → Type 0
Finds o es g b = (n : Node) × (find_node g (o.element b).id ≡ ok n) × IsNode o es (o.element b).id n

-- A graph that was built has the given model, and finds for each BPMN element that it was built from, by its ID,
-- a node with an element and one of the given entities, both of that ID, whose own ID and kind are the entity's, and whose boundary
-- events are those that are attached to the element if it is a task or a scope, and none otherwise; and there were
-- as many entities as elements, the first of which is the process.
pub new_graph-IsNode :
    (o : Objects) (root : ℕ) (bs : List ℕ) (es : List ElementEntity) (g : Graph)
    → new_graph o (root ∷ bs) es ≡ ok g
    → (g.model ≡ o)
      × (g.process_element ≡ root)
      × (same (o.element root).type process ≡ true)
      × (length (root ∷ bs) ≡ length es)
      × All (Finds o es g) (root ∷ bs)
unfolding new_graph find_node lookup
new_graph-IsNode o root bs es g h = elim (Bool-cases (length (root ∷ bs) == length es)) [
  | inr differ ↦ absurd (cc (rw (new_graph, differ) at h))
  | inl equal ↦ elim (Bool-cases (same (o.element root).type process)) [
    | inr other ↦ absurd (cc (rw (new_graph, equal, other) at h))
    | inl is_process ↦
        let (nodes, is_nodes, done) =
          >>=-eq-ok (add_nodes o (element_map [] es) [] (root ∷ bs)) _
            (rw (new_graph, equal, is_process) at h) in
        let built = ok-injective done in
        (
          ap (λ y. y.model) (sym built),
          ap (λ y. y.process_element) (sym built),
          is_process,
          (==_iff (length (root ∷ bs)) (length es)).0 equal,
          subst (λ y. All (Finds o es y) (root ∷ bs)) built
              (found nodes root (root ∷ bs)
                (add_nodes-HasNode o es (element_map [] es) given (root ∷ bs) [] nodes is_nodes).1),
        )
  ]
]
  where
    given :
        (id : String) (e : ElementEntity) → lookup id (element_map [] es) ≡ some e → Given es id e
    given id e h =
        element_map-Given es es [] (all-Given es es (λ x m. m))
          (λ j y missing. absurd (none_there j y missing)) id e h
      where
        none_there : (j : String) (y : ElementEntity) → lookup j [] ≡ some y → ⊥
        none_there j y eq = cc (eq)

    found :
        (nodes : Nodes) (p : ℕ) (cs : List ℕ)
        → All (λ b. HasNode o es nodes (o.element b).id) cs
        → All (Finds o es (record { model = o; nodes = nodes; process_element = p })) cs
    found nodes p [] h = tt
    found nodes p (c ∷ cs) ((n, at, is_node), rest) =
        ((n, rw (find_node, at) refl, is_node), found nodes p cs rest)
