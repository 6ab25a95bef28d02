-- ===== src/Kueue/Graph.antt =====
-- graph.go: the ownership graph of a namespace, and the walk over the descendants of a root.
use odh_cli.Base.{
  ℕ, zero, suc, ◌+◌, String, Option, none, some, List, [], ◌∷◌, ◌++◌, map, if◌then◌else◌, ◌==◌, has,
  length,
}
use Prim.Native.String as Str
use odh_cli.Errors.{wrapped}
use odh_cli.Kube.{ObjectMetadata, ResourceType}
use odh_cli.Lint.Check.{Returns, ok, fail}
use odh_cli.Kueue.{
  with_namespace, Reader, NotFoundErrors, is_resource_type_not_found, intermediate_types,
}

pub record GraphNode : Type 0 where
  pub uid : String
  pub name : String
  pub namespace : String
  pub kind : String
  pub labels : List (String × String)

-- ownershipGraph: the children of each parent UID.
abbrev pub OwnershipGraph : Type 0
OwnershipGraph = List (String × List GraphNode)

-- g.children[uid]; of a missing key, no children.
unfoldable pub children_of : OwnershipGraph → String → List GraphNode
children_of [] uid = []
children_of ((k, cs) ∷ g) uid = if k == uid then cs else children_of g uid

-- graph.children[uid] = append(graph.children[uid], node)
unfoldable pub add_child : OwnershipGraph → String → GraphNode → OwnershipGraph
add_child [] uid node = (uid, node ∷ []) ∷ []
add_child ((k, cs) ∷ g) uid node =
    if k == uid then (k, cs ++ node ∷ []) ∷ g else (k, cs) ∷ add_child g uid node

-- newGraphNode
unfoldable pub new_graph_node : ObjectMetadata → String → GraphNode
new_graph_node item kind = record {
  uid = item.uid;
  name = item.name;
  namespace = item.namespace;
  kind = kind;
  labels = item.labels;
}

-- The loop over the owner references of an item.
unfoldable pub add_owners : OwnershipGraph → GraphNode → List String → OwnershipGraph
unfolding add_child
add_owners g node [] = g
add_owners g node (ref ∷ refs) = add_owners (add_child g ref node) node refs

-- The loop over the items of a type.
unfoldable pub add_items : OwnershipGraph → String → List ObjectMetadata → OwnershipGraph
unfolding add_owners new_graph_node
add_items g kind [] = g
add_items g kind (item ∷ items) =
    add_items (add_owners g (new_graph_node item kind) item.owners) kind items

-- The loop over the types: a type that the cluster does not have is passed over.
unfoldable pub build_from :
    NotFoundErrors → Reader → String → List ResourceType → OwnershipGraph → Returns OwnershipGraph
unfolding add_items is_resource_type_not_found
build_from api read namespace [] g = ok g
build_from api read namespace (rt ∷ rts) g = elim (read rt (with_namespace namespace)) [
  | ok items ↦ build_from api read namespace rts (add_items g rt.kind items)
  | fail err ↦
      if is_resource_type_not_found api err
      then build_from api read namespace rts g
      else fail (
          wrapped
            (Str.◌++◌ "listing "
              (Str.◌++◌ rt.kind (Str.◌++◌ " in namespace " (Str.◌++◌ namespace ": "))))
            err "")
]

-- buildGraph
unfoldable pub build_graph : NotFoundErrors → Reader → String → Returns OwnershipGraph
unfolding build_from
build_graph api read namespace = build_from api read namespace intermediate_types []

abbrev pub uids : List GraphNode → List String
uids nodes = map (λ (n : GraphNode). n.uid) nodes

-- The loop of walkSubtree with the queue, the visited set and the result; `none` is lack of fuel.
unfoldable pub walk :
    OwnershipGraph → ℕ → List String → List String → List GraphNode → Option (List GraphNode)
unfolding children_of
walk g fuel [] visited result = some result
walk g zero (u ∷ queue) visited result = none
walk g (suc fuel) (u ∷ queue) visited result =
    let skip = walk g fuel queue visited result in
    let kids = children_of g u in
    let go = walk g fuel (queue ++ uids kids) (u ∷ visited) (result ++ kids) in
    if has visited u then skip else go

abbrev pub total_children : OwnershipGraph → ℕ
total_children [] = 0
total_children ((k, cs) ∷ g) = length cs + total_children g

-- walkSubtree: each edge puts one UID into the queue, so a round for each edge and the root is enough.
unfoldable pub walk_subtree : OwnershipGraph → String → Option (List GraphNode)
unfolding walk
walk_subtree g root = walk g (suc (total_children g)) (root ∷ []) [] []
