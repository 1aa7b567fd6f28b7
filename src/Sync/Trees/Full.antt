-- ===== src/Sync/Trees/Full.antt =====
-- `shmem_internal_sync_tree` of src/collectives.c on all PEs, over the tree that start-up builds.
use mathlib.Core.Path.{subst}
use sandia_shmem.Base.{
  ℕ, ◌<◌, ◌≤◌, ◌≡◌, ◌≢◌, refl, ap, sym, ◌∙◌, true, false, List, [], ◌∷◌, Option, none, some, Elem,
  IsDistinct, length, arith, ltb, ltb→lt, lt→ltb,
}
use sandia_shmem.Comm.{Machine}
use sandia_shmem.Collectives.FullTree.{FullTree, full_tree}
use sandia_shmem.Collectives.FullTree.Tree.{full_tree-total, full_tree-child, full_tree-parent}
use sandia_shmem.Collectives.FullTree.Distinct.{full_tree_found}
use sandia_shmem.Sync.{TreeNode, sync_tree}
use sandia_shmem.Sync.Shape.{Shape, IsTree}
use sandia_shmem.Sync.Ends.{Calls, Calls-Started, IsBarrier, tree-IsBarrier}
use sandia_shmem.Sync.Trees.{node, tree-code}

-- `full_tree_parent`, `full_tree_num_children` and `full_tree_children` of a PE.
abbrev pub full_node : Option FullTree → TreeNode
full_node none = record { parent = 0; num_children = 0; children = [] }
full_node (some t) = record {
  parent = t.parent;
  num_children = t.num_children;
  children = t.children;
}

module _ (n r slot : ℕ) where
  abbrev node_at : ℕ → TreeNode
  node_at p = full_node (full_tree n r p)

  abbrev all_pes : Shape
  all_pes = record {
    slot = slot;
    is_member = λ p. ltb p n;
    root = 0;
    parent = λ p. (node_at p).parent;
    children = λ p. (node_at p).children;
    put_acks = false;
    depth = λ p. p;
    height = n;
  }

  module _ (radix : 2 ≤ r) (two : 2 ≤ n) where
    -- The children of a PE, once its tree is known.
    listed :
        {t : FullTree} (p c : ℕ)
        → full_tree n r p ≡ some t
        → Elem c t.children
        → Elem c (node_at p).children
    listed p c e m = subst (λ o. Elem c (full_node o).children) (sym e) m

    up :
        (p : ℕ)
        → ltb p n ≡ true
        → p ≢ 0
        → (ltb (node_at p).parent n ≡ true) × Elem p (node_at (node_at p).parent).children
    up p member other =
        let (u, t, e, below, e', m) =
          full_tree-parent n r p radix (omega (arith, other)) (ltb→lt p n member) in
        let at : (node_at p).parent ≡ u.parent = ap (λ o. (full_node o).parent) e in
        (
          lt→ltb _ n (omega (arith, at, below, ltb→lt p n member)),
          subst (λ x. Elem p (node_at x).children) (sym at) (listed u.parent p e' m),
        )

    below : (p : ℕ) → ltb p n ≡ true → p ≢ 0 → (node_at p).parent < p
    below p member other =
        let (u, t, e, lt, e', m) =
          full_tree-parent n r p radix (omega (arith, other)) (ltb→lt p n member) in
        omega (arith, ap (λ o. (full_node o).parent) e, lt)

    down :
        (p c : ℕ)
        → Elem c (node_at p).children
        → (ltb c n ≡ true) × ((node_at c).parent ≡ p) × (c ≢ 0)
    down p c m =
        let (t, e, len) = full_tree-total n r p radix in
        let (above, lt, (u, e', at)) =
          full_tree-child n r p c t radix e (subst (λ o. Elem c (full_node o).children) e m) in
        (lt→ltb c n lt, ap (λ o. (full_node o).parent) e' ∙ at, λ z. omega (arith, z, above))

    all_pes-IsTree : IsTree all_pes
    all_pes-IsTree = record {
      root_in = lt→ltb 0 n (omega arith);
      root_inner =
          let m = (up 1 (lt→ltb 1 n (omega arith)) (λ e. omega (arith, e))).1 in
          let low = below 1 (lt→ltb 1 n (omega arith)) (λ e. omega (arith, e)) in
          let at : (node_at 1).parent ≡ 0 = omega (arith, low) in
          nonempty (node_at 0).children (subst (λ x. Elem 1 (node_at x).children) at m);
      up = up;
      down = λ p c _ m. down p c m;
      distinct = λ p _.
          let (t, e, d, _) = full_tree_found n r p radix in
          subst (λ o. IsDistinct (full_node o).children) (sym e) d;
      leaves = λ p c puts _ m. let f : false ≡ true = puts in cc;
      deeper = below;
      bounded = λ p member. omega (arith, ltb→lt p n member);
    }
      where
        nonempty : (xs : List ℕ) → Elem 1 xs → 0 < length xs
        nonempty [] m = absurd m
        nonempty (x ∷ xs) m = omega arith

    own : (node_at 0).parent ≡ 0
    own =
        let (t, e, _, at) = full_tree_found n r 0 radix in
        ap (λ o. (full_node o).parent) e ∙ at refl

    node-same : (p : ℕ) → node_at p ≡ node all_pes p
    node-same p =
        let (t, e, len) = full_tree-total n r p radix in
        let same : (node_at p).num_children ≡ length (node_at p).children =
          subst (λ o. (full_node o).num_children ≡ length (full_node o).children) (sym e) len in
        λ i. record {
          parent = (node_at p).parent;
          num_children = same i;
          children = (node_at p).children;
        }

-- In a job of two PEs or more, for a radix of 2 or more and with counters at 0, the tree barrier on all
-- PEs, over the tree that start-up builds, keeps the promise of a barrier in every interleaving: a PE that
-- is through finds its counter at 0 and every PE of the set past its first instruction, some PE can go on
-- while one is not through, no PE runs more than its list, and only this counter is touched.
pub sync_tree-IsBarrier :
    {A : Type 0} (op : A → A → A) (n r slot : ℕ) {m : Machine A}
    → 2 ≤ r
    → 2 ≤ n
    → Calls (λ p. ltb p n) slot (λ p. sync_tree (full_node (full_tree n r p)) slot p) m
    → IsBarrier op (λ p. ltb p n) slot m
sync_tree-IsBarrier op n r slot radix two calls =
    let is_tree = all_pes-IsTree n r slot radix two in
    tree-IsBarrier op is_tree (
      Calls-Started
        (λ p member.
          ap (λ x. sync_tree x slot p) (node-same n r slot radix two p)
          ∙ tree-code is_tree refl (own n r slot radix two) p member)
        calls)
