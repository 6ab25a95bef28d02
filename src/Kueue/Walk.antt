-- ===== src/Kueue/Walk.antt =====
-- walkSubtree of graph.go against reachability in the ownership graph.
use odh_cli.Base.{
  ℕ, zero, suc, ◌+◌, ◌≤◌, ◌≡◌, ◌⊎◌, inl, inr, refl, sym, ap, subst, ◌↔◌, String, false, none, some,
  List, [], ◌∷◌, ◌++◌, if◌then◌else◌, has, length, arith, eq_iff, All, In, has→In, Bool-cases,
  length-append, All-append, Some-append_left, Some-append_right, In-All, All-of_In,
}
use odh_cli.Base.Graph.{Reach, here, step, Reach-closed}
use odh_cli.Kueue.Graph.{
  GraphNode, OwnershipGraph, children_of, uids, walk, total_children, walk_subtree,
}

-- The children of the UIDs that are still to be visited.
abbrev pending : OwnershipGraph → List String → ℕ
pending [] visited = 0
pending ((k, cs) ∷ g) visited = (if has visited k then 0 else length cs) + pending g visited

pending_mono :
    (g : OwnershipGraph) (visited : List String) (u : String)
    → pending g (u ∷ visited) ≤ pending g visited
pending_mono [] visited u = omega arith
pending_mono ((k, cs) ∷ g) visited u = ground (arith, pending_mono g visited u)

pending-visit :
    (g : OwnershipGraph) (visited : List String) (u : String)
    → has visited u ≡ false
    → pending g (u ∷ visited) + length (children_of g u) ≤ pending g visited
unfolding children_of
pending-visit [] visited u h = omega arith
pending-visit ((k, cs) ∷ g) visited u h =
    ground (arith, eq_iff k u, eq_iff u k, pending_mono g visited u, pending-visit g visited u)

length-uids : (nodes : List GraphNode) → length (uids nodes) ≡ length nodes
length-uids [] = refl
length-uids (n ∷ nodes) = ap suc (length-uids nodes)

walk_enough :
    (g : OwnershipGraph) (fuel : ℕ) (queue visited : List String) (result : List GraphNode)
    → length queue + pending g visited ≤ fuel
    → (r : List GraphNode) × (walk g fuel queue visited result ≡ some r)
unfolding walk
walk_enough g zero [] visited result h = (result, refl)
walk_enough g (suc fuel) [] visited result h = (result, refl)
walk_enough g zero (u ∷ queue) visited result h = absurd (omega arith)
walk_enough g (suc fuel) (u ∷ queue) visited result h = elim (Bool-cases (has visited u)) [
  | inl old ↦ rw old (walk_enough g fuel queue visited result (omega arith))
  | inr new ↦
      let kids = children_of g u in
      rw new (
        walk_enough g fuel (queue ++ uids kids) (u ∷ visited) (result ++ kids) (
          omega (
            arith,
            pending-visit g visited u new,
            length-append queue (uids kids),
            length-uids kids,
          )))
]

module _ (g : OwnershipGraph) (root : String) where
  abbrev pub next : String → List String
  next u = uids (children_of g u)

  -- A child of the root or of a descendant of the root.
  abbrev pub IsDescendant : GraphNode → Type 0
  IsDescendant n = (p : String) × Reach next root p × In n (children_of g p)

  record WalkInv (queue visited : List String) (result : List GraphNode) : Type 0 where
    reached_queue : All (Reach next root) queue
    reached_visited : All (Reach next root) visited
    sound : All IsDescendant result
    complete : (u : String) (n : GraphNode) → In u visited → In n (children_of g u) → In n result
    closed :
        (u : String) (n : GraphNode)
        → In u visited
        → In n (children_of g u)
        → In n.uid visited ⊎ In n.uid queue
    has_root : In root visited ⊎ In root queue

  -- What a walk is to return.
  abbrev pub IsSubtree : List GraphNode → Type 0
  IsSubtree r = (n : GraphNode) → In n r ↔ IsDescendant n

  In-uids : (n : GraphNode) (nodes : List GraphNode) → In n nodes → In n.uid (uids nodes)
  In-uids n [] i = elim i [ ]
  In-uids n (m ∷ nodes) (inl e) = inl (ap (λ (x : GraphNode). x.uid) e)
  In-uids n (m ∷ nodes) (inr i) = inr (In-uids n nodes i)

  uids-In :
      (y : String) (nodes : List GraphNode)
      → In y (uids nodes)
      → (m : GraphNode) × In m nodes × (m.uid ≡ y)
  uids-In y [] i = elim i [ ]
  uids-In y (m ∷ nodes) (inl e) = (m, inl refl, e)
  uids-In y (m ∷ nodes) (inr i) = let (n, j, e) = uids-In y nodes i in (n, inr j, e)

  uids-All :
      (P : String → Type 0) (nodes : List GraphNode)
      → ((n : GraphNode) → In n nodes → P n.uid)
      → All P (uids nodes)
  uids-All P [] h = tt
  uids-All P (m ∷ nodes) h = (h m (inl refl), uids-All P nodes (λ n i. h n (inr i)))

  drop_head :
      (u v : String) (queue visited : List String)
      → In u visited
      → In v visited ⊎ In v (u ∷ queue)
      → In v visited ⊎ In v queue
  drop_head u v queue visited old (inl i) = inl i
  drop_head u v queue visited old (inr (inl e)) = inl (subst (λ x. In x visited) e old)
  drop_head u v queue visited old (inr (inr i)) = inr i

  skip_inv :
      (u : String) (queue visited : List String) (result : List GraphNode)
      → In u visited
      → WalkInv (u ∷ queue) visited result
      → WalkInv queue visited result
  skip_inv u queue visited result old inv = record {
    reached_queue = inv.reached_queue.1;
    reached_visited = inv.reached_visited;
    sound = inv.sound;
    complete = inv.complete;
    closed = λ v n i j. drop_head u n.uid queue visited old (inv.closed v n i j);
    has_root = drop_head u root queue visited old inv.has_root;
  }

  move_head :
      (u v : String) (queue more visited : List String)
      → In v visited ⊎ In v (u ∷ queue)
      → In v (u ∷ visited) ⊎ In v (queue ++ more)
  move_head u v queue more visited (inl i) = inl (inr i)
  move_head u v queue more visited (inr (inl e)) = inl (inl e)
  move_head u v queue more visited (inr (inr i)) = inr (Some-append_left _ queue more i)

  visit_inv :
      (u : String) (queue visited : List String) (result : List GraphNode)
      → WalkInv (u ∷ queue) visited result
      → WalkInv (queue ++ next u) (u ∷ visited) (result ++ children_of g u)
  visit_inv u queue visited result inv = record {
    reached_queue =
        All-append _ queue (next u) inv.reached_queue.1
          (uids-All _ (children_of g u) (λ n i. step inv.reached_queue.0 (In-uids n _ i)));
    reached_visited = (inv.reached_queue.0, inv.reached_visited);
    sound =
        All-append IsDescendant result (children_of g u) inv.sound
          (All-of_In IsDescendant (children_of g u) (λ n i. (u, inv.reached_queue.0, i)));
    complete = complete;
    closed = closed;
    has_root = move_head u root queue (next u) visited inv.has_root;
  }
    where
      complete :
          (v : String) (n : GraphNode)
          → In v (u ∷ visited)
          → In n (children_of g v)
          → In n (result ++ children_of g u)
      complete v n (inl e) i =
          Some-append_right _ result (children_of g u)
            (subst (λ x. In n (children_of g x)) (sym e) i)
      complete v n (inr j) i = Some-append_left _ result (children_of g u) (inv.complete v n j i)

      closed :
          (v : String) (n : GraphNode)
          → In v (u ∷ visited)
          → In n (children_of g v)
          → In n.uid (u ∷ visited) ⊎ In n.uid (queue ++ next u)
      closed v n (inl e) i = inr (
          Some-append_right _ queue (next u)
            (In-uids n _ (subst (λ x. In n (children_of g x)) (sym e) i)))
      closed v n (inr j) i = move_head u n.uid queue (next u) visited (inv.closed v n j i)

  done-IsSubtree :
      (visited : List String) (result : List GraphNode)
      → WalkInv [] visited result
      → IsSubtree result
  done-IsSubtree visited result inv n = (
    (λ i. In-All IsDescendant n result i inv.sound),
    λ (p, r, i). inv.complete p n (Reach-closed next (λ u. In u visited) start keeps r) i,
  )
    where
      start : In root visited
      start = elim inv.has_root [ inl i ↦ i | inr i ↦ absurd i ]

      keeps : (x y : String) → In x visited → In y (next x) → In y visited
      keeps x y i j =
          let (m, k, e) = uids-In y (children_of g x) j in
          elim (inv.closed x m i k) [ inl l ↦ subst (λ u. In u visited) e l | inr l ↦ absurd l ]

  walk-IsSubtree :
      (fuel : ℕ) (queue visited : List String) (result r : List GraphNode)
      → WalkInv queue visited result
      → walk g fuel queue visited result ≡ some r
      → IsSubtree r
  unfolding walk
  walk-IsSubtree zero [] visited result r inv e =
      subst IsSubtree (ap (λ o. elim o [ none ↦ result | some x ↦ x ]) e)
        (done-IsSubtree visited result inv)
  walk-IsSubtree (suc fuel) [] visited result r inv e =
      subst IsSubtree (ap (λ o. elim o [ none ↦ result | some x ↦ x ]) e)
        (done-IsSubtree visited result inv)
  walk-IsSubtree zero (u ∷ queue) visited result r inv e = absurd (cc)
  walk-IsSubtree (suc fuel) (u ∷ queue) visited result r inv e = elim (Bool-cases (has visited u)) [
    | inl old ↦
        walk-IsSubtree fuel queue visited result r
          (skip_inv u queue visited result (has→In visited u old) inv) (rw old at e)
    | inr new ↦ walk-IsSubtree fuel _ _ _ r (visit_inv u queue visited result inv) (rw new at e)
  ]

  start_inv : WalkInv (root ∷ []) [] []
  start_inv = record {
    reached_queue = (here, tt);
    reached_visited = tt;
    sound = tt;
    complete = λ u n i j. elim i [ ];
    closed = λ u n i j. elim i [ ];
    has_root = inr (inl refl);
  }

pending-total : (g : OwnershipGraph) → pending g [] ≤ total_children g
pending-total [] = omega arith
pending-total ((k, cs) ∷ g) = ground (arith, pending-total g)

-- The loop of walkSubtree ends, also on a graph with cycles, and returns exactly the objects that an
-- ownership path leads to from the root.
pub walk_subtree_lem :
    (g : OwnershipGraph) (root : String)
    → (r : List GraphNode) × (walk_subtree g root ≡ some r)
      × ((n : GraphNode) → In n r ↔ IsDescendant g root n)
unfolding walk_subtree
walk_subtree_lem g root =
    let (r, e) =
      walk_enough g (suc (total_children g)) (root ∷ []) [] [] (omega (arith, pending-total g)) in
    (r, e, walk-IsSubtree g root (suc (total_children g)) (root ∷ []) [] [] r (start_inv g root) e)
