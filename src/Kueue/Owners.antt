-- ===== src/Kueue/Owners.antt =====
-- buildGraph of graph.go against the owner references of the listed objects.
use odh_cli.Base.{
  ◌≡◌, refl, sym, subst, ◌∙◌, ◌↔◌, ◌⊎◌, inl, inr, false, String, List, [], ◌∷◌, ◌++◌, if◌then◌else◌,
  ◌==◌, arith, eq_iff, Some, In, chain, nothing, Some-append_left, Some-append_right,
  Some-append_cases, Bool-cases,
}
use odh_cli.Errors.{Error}
use odh_cli.Kube.{ObjectMetadata, ResourceType}
use odh_cli.Lint.Check.{Returns, ok, fail, ok-injective}
use odh_cli.Kueue.{
  with_namespace, Reader, NotFoundErrors, is_resource_type_not_found, intermediate_types,
}
use odh_cli.Kueue.Graph.{
  GraphNode, OwnershipGraph, children_of, add_child, new_graph_node, add_owners, add_items,
  build_from, build_graph,
}

-- An item of a kind that `p` owns, as the node that stands for it.
abbrev pub IsOwnedItem : String → String → GraphNode → ObjectMetadata → Type 0
IsOwnedItem kind p n item = In p item.owners × (new_graph_node item kind ≡ n)

-- A type whose items can be listed and include one that `p` owns.
abbrev pub IsOwnedType : Reader → String → String → GraphNode → ResourceType → Type 0
IsOwnedType read namespace p n rt =
    (items : List ObjectMetadata) × (read rt (with_namespace namespace) ≡ ok items)
    × Some (IsOwnedItem rt.kind p n) items

children_of-add_child :
    (g : OwnershipGraph) (u p : String) (node : GraphNode)
    → children_of (add_child g u node) p
      ≡ (if u == p then children_of g p ++ node ∷ [] else children_of g p)
unfolding add_child children_of
children_of-add_child [] u p node = refl
children_of-add_child ((k, cs) ∷ g) u p node =
    ground (arith, eq_iff k u, eq_iff k p, eq_iff u p, children_of-add_child g u p node)

In-add_child :
    (g : OwnershipGraph) (u p : String) (node n : GraphNode)
    → In n (children_of (add_child g u node) p) ↔ In n (children_of g p) ⊎ ((u ≡ p) × (node ≡ n))
In-add_child g u p node n = elim (Bool-cases (u == p)) [
  | inl e ↦
      rw (children_of-add_child g u p node, e)
        (
          λ i. elim (Some-append_cases _ (children_of g p) (node ∷ []) i) [
            | inl j ↦ inl j
            | inr (inl f) ↦ inr ((eq_iff u p).0 e, f)
            | inr (inr j) ↦ absurd j
          ],
          λ i. elim i [
            | inl j ↦ Some-append_left _ (children_of g p) (node ∷ []) j
            | inr (q, f) ↦ Some-append_right _ (children_of g p) (node ∷ []) (inl f)
          ],
        )
  | inr e ↦
      rw (children_of-add_child g u p node, e)
        (λ i. inl i, λ i. elim i [ inl j ↦ j | inr (q, f) ↦ absurd (differ e q) ])
]
  where
    differ : u == p ≡ false → u ≡ p → ⊥
    differ e q = ground (arith, eq_iff u p)

In-add_owners :
    (g : OwnershipGraph) (node : GraphNode) (refs : List String) (p : String) (n : GraphNode)
    → In n (children_of (add_owners g node refs) p)
      ↔ In n (children_of g p) ⊎ (In p refs × (node ≡ n))
unfolding add_owners
In-add_owners g node [] p n = (λ i. inl i, λ i. elim i [ inl j ↦ j | inr (b, f) ↦ absurd b ])
In-add_owners g node (u ∷ refs) p n =
    let both =
      chain (In-add_child g u p node n) (In-add_owners (add_child g u node) node refs p n) in
    (
      λ i. elim (both.0 i) [
        | inl j ↦ inl j
        | inr (inl (q, f)) ↦ inr (inl q, f)
        | inr (inr (j, f)) ↦ inr (inr j, f)
      ],
      λ i. elim i [
        | inl j ↦ both.1 (inl j)
        | inr (inl q, f) ↦ both.1 (inr (inl (q, f)))
        | inr (inr j, f) ↦ both.1 (inr (inr (j, f)))
      ],
    )

In-add_items :
    (g : OwnershipGraph) (kind : String) (items : List ObjectMetadata) (p : String) (n : GraphNode)
    → In n (children_of (add_items g kind items) p)
      ↔ In n (children_of g p) ⊎ Some (IsOwnedItem kind p n) items
unfolding add_items
In-add_items g kind [] p n = nothing
In-add_items g kind (item ∷ items) p n =
    chain (In-add_owners g (new_graph_node item kind) item.owners p n)
      (In-add_items (add_owners g (new_graph_node item kind) item.owners) kind items p n)

Listed-cases :
    (r : Returns (List ObjectMetadata))
    → ((items : List ObjectMetadata) × (r ≡ ok items)) ⊎ ((err : Error) × (r ≡ fail err))
Listed-cases (ok items) = inl (items, refl)
Listed-cases (fail err) = inr (err, refl)

-- The disjunct of the items that were listed is the one of their type.
listed :
    {S V X : Type 0}
    → (read : Reader) (namespace p : String) (n : GraphNode) (rt : ResourceType)
      (items : List ObjectMetadata)
    → read rt (with_namespace namespace) ≡ ok items
    → (X ↔ S ⊎ (Some (IsOwnedItem rt.kind p n) items ⊎ V))
    → X ↔ S ⊎ (IsOwnedType read namespace p n rt ⊎ V)
listed read namespace p n rt items q both = (
  λ x. elim (both.0 x) [
    | inl s ↦ inl s
    | inr (inl o) ↦ inr (inl (items, q, o))
    | inr (inr v) ↦ inr (inr v)
  ],
  λ y. elim y [
    | inl s ↦ both.1 (inl s)
    | inr (inl (others, r, o)) ↦
        both.1 (inr (inl (subst (Some (IsOwnedItem rt.kind p n)) (ok-injective (sym r ∙ q)) o)))
    | inr (inr v) ↦ both.1 (inr (inr v))
  ],
)

-- A type that could not be listed adds nothing.
unlisted :
    {S V X : Type 0}
    → (read : Reader) (namespace p : String) (n : GraphNode) (rt : ResourceType) (err : Error)
    → read rt (with_namespace namespace) ≡ fail err
    → (X ↔ S ⊎ V)
    → X ↔ S ⊎ (IsOwnedType read namespace p n rt ⊎ V)
unlisted read namespace p n rt err q both = (
  λ x. elim (both.0 x) [ inl s ↦ inl s | inr v ↦ inr (inr v) ],
  λ y. elim y [
    | inl s ↦ both.1 (inl s)
    | inr (inl (items, r, o)) ↦ absurd (clash items r q)
    | inr (inr v) ↦ both.1 (inr v)
  ],
)
  where
    clash :
        (items : List ObjectMetadata)
        → read rt (with_namespace namespace) ≡ ok items
        → read rt (with_namespace namespace) ≡ fail err
        → ⊥
    clash items r f = cc

In-build_from :
    (api : NotFoundErrors) (read : Reader) (namespace p : String) (n : GraphNode)
    → (rts : List ResourceType) (g h : OwnershipGraph) → build_from api read namespace rts g ≡ ok h
    → In n (children_of h p) ↔ In n (children_of g p) ⊎ Some (IsOwnedType read namespace p n) rts
unfolding build_from
In-build_from api read namespace p n [] g h e = rw (← ok-injective e) nothing
In-build_from api read namespace p n (rt ∷ rts) g h e =
    elim (Listed-cases (read rt (with_namespace namespace))) [
      | inl (items, q) ↦ listed read namespace p n rt items q (
          chain (In-add_items g rt.kind items p n) (
            In-build_from api read namespace p n rts (add_items g rt.kind items) h
              (rw (q, build_from) at e)))
      | inr (err, q) ↦ elim (Bool-cases (is_resource_type_not_found api err)) [
        | inl t ↦
            unlisted read namespace p n rt err q
              (In-build_from api read namespace p n rts g h (rw (q, build_from, t) at e))
        | inr t ↦ absurd (refused err q t)
      ]
    ]
  where
    refused :
        (err : Error)
        → read rt (with_namespace namespace) ≡ fail err
        → is_resource_type_not_found api err ≡ false
        → ⊥
    refused err q t = let x = rw (q, build_from, t) at e in cc

-- If buildGraph succeeds, a node is a child of a UID in its graph exactly if it stands for an item of
-- an intermediate type that the reader lists in the namespace and that has this UID among its owners.
pub build_graph_iff :
    (api : NotFoundErrors) (read : Reader) (namespace : String) (h : OwnershipGraph)
    → (p : String) (n : GraphNode) → build_graph api read namespace ≡ ok h
    → In n (children_of h p) ↔ Some (IsOwnedType read namespace p n) intermediate_types
unfolding build_graph children_of
build_graph_iff api read namespace h p n e =
    let both = In-build_from api read namespace p n intermediate_types [] h e in
    (λ i. elim (both.0 i) [ inl j ↦ absurd j | inr o ↦ o ], λ o. both.1 (inr o))
