-- ===== src/Sync/Trees/Kary.antt =====
-- `shmem_internal_sync_tree` of src/collectives.c on an active set that is not all PEs, over the tree of
-- `shmem_internal_build_kary_tree` with its first PE as the root.
use mathlib.Core.Path.{subst}
use native.Mathlib.Nat.{mul-le-mul_left, div-le_self, div-add-mod, mod-lt, zero-div}
use sandia_shmem.Base.{
  length-map, map-map, map-IsDistinct, ℕ, zero, suc, ◌+◌, ◌-◌, ◌*◌, ◌/◌, ◌<◌, ◌≤◌, ◌≡◌, ◌≢◌, refl,
  ap, sym, ◌∙◌, true, false, List, [], ◌∷◌, map, Elem, Elem-map, Elem-map_inv, IsDistinct, length,
  arith, ℕ_discrete, dec_lt,
}
use sandia_shmem.Base.Int.{pos, pos_part}
use sandia_shmem.Comm.{Machine}
use sandia_shmem.Collectives.Kary.{Tree, parent, children}
use sandia_shmem.Collectives.Kary.Laws.{
  InRange, at_id, parent-at, child_ids, child_ids_iff, child_ids-IsDistinct,
}
use sandia_shmem.Collectives.Kary.Spanning.{children-at, parent_id}
use sandia_shmem.Sync.{TreeNode, sync_tree}
use sandia_shmem.Sync.Shape.{Shape, IsTree}
use sandia_shmem.Sync.Ends.{Calls, Calls-Started, IsBarrier, tree-IsBarrier}
use sandia_shmem.Sync.Linear.{in_set, in_set_iff}
use sandia_shmem.Sync.Trees.{node, tree-code}

-- The arguments of `sync_tree` for the tree: radix r, active set <s, d, z>, PE_root 0.
abbrev pub kary_tree : ℕ → ℕ → ℕ → ℕ → Tree
kary_tree r s d z = record {
  radix = pos r;
  pe_start = pos s;
  stride = pos d;
  pe_size = pos z;
  pe_root = pos 0;
}

-- What `shmem_internal_build_kary_tree` leaves at the PE `me`.
abbrev pub kary_node : Tree → ℕ → TreeNode
kary_node t me = record {
  parent = pos_part (parent t (pos me));
  num_children = length (children t (pos me));
  children = map pos_part (children t (pos me));
}

succ_le : (a b : ℕ) → a < b → a + 1 ≤ b
succ_le a b lt = omega arith

module _ (r s d z slot : ℕ) (radix : 2 ≤ r) (positive : 0 < d) (two : 2 ≤ z) where
  abbrev t : Tree
  t = kary_tree r s d z

  g : InRange t r s d z 0
  g = record {
    radix = refl;
    start = refl;
    stride = refl;
    size = refl;
    at_root = refl;
    two = radix;
    positive = positive;
    inside = omega arith;
  }

  abbrev kary_shape : Shape
  kary_shape = record {
    slot = slot;
    is_member = in_set s d z;
    root = s;
    parent = λ p. (kary_node t p).parent;
    children = λ p. (kary_node t p).children;
    put_acks = false;
    depth = λ p. p;
    height = s + d * z;
  }

  -- The PE of index `id`.
  at-id : (id : ℕ) → id < z → at_id g id ≡ s + d * id
  at-id id lt = ground arith

  member_id : (p : ℕ) → in_set s d z p ≡ true → (id : ℕ) × (id < z) × (p ≡ at_id g id)
  member_id p member =
      let (id, lt, e) = (in_set_iff s d z p positive).0 member in (id, lt, e ∙ sym (at-id id lt))

  id_member : (id : ℕ) → id < z → in_set s d z (at_id g id) ≡ true
  id_member id lt = (in_set_iff s d z (at_id g id) positive).1 (id, lt, at-id id lt)

  id_lt : (a b : ℕ) → a < b → b < z → at_id g a < at_id g b
  id_lt a b lt inside =
      omega (arith, at-id a (omega arith), at-id b inside, mul-le-mul_left d (succ_le a b lt))

  listed :
      (id : ℕ) → id < z → (kary_node t (at_id g id)).children ≡ map (at_id g) (child_ids g id r 1)
  listed id lt = ap (map pos_part) (children-at g id lt) ∙ map-map _ pos_part (child_ids g id r 1)

  above : (id : ℕ) → id < z → (kary_node t (at_id g id)).parent ≡ at_id g ((id - 1) / r)
  above id lt = ap pos_part (parent-at g id lt)

  root_id : at_id g 0 ≡ s
  root_id = at-id 0 (omega arith) ∙ omega arith

  own : (kary_node t s).parent ≡ s
  own =
      ap (λ p. (kary_node t p).parent) (sym root_id)
      ∙ above 0 (omega arith)
      ∙ ap (at_id g) (zero-div r)
      ∙ root_id

  not_first : (id : ℕ) → at_id g id ≢ s → 0 < id
  not_first zero other = absurd (other root_id)
  not_first (suc id) other = omega arith

  up_id :
      (id : ℕ) → 0 < id → id < z → ((id - 1) / r < id) × Elem id (child_ids g ((id - 1) / r) r 1)
  up_id id more lt = (
    omega (arith, div-le_self (id - 1) r),
    (child_ids_iff g ((id - 1) / r) r 1 id).1 (
      lt,
      omega (arith, div-add-mod (id - 1) r),
      omega (arith, div-add-mod (id - 1) r, mod-lt (id - 1) {m = r} (omega arith)),
    ),
  )

  up :
      (p : ℕ)
      → in_set s d z p ≡ true
      → p ≢ s
      → (in_set s d z (kary_node t p).parent ≡ true)
        × Elem p (kary_node t (kary_node t p).parent).children
        × ((kary_node t p).parent < p)
  up p member other =
      let (id, lt, e) = member_id p member in
      let (less, m) = up_id id (not_first id (λ q. other (e ∙ q))) lt in
      let q = (id - 1) / r in
      let at : (kary_node t p).parent ≡ at_id g q =
        ap (λ x. (kary_node t x).parent) e ∙ above id lt in
      let found : Elem (at_id g id) (kary_node t (at_id g q)).children =
        subst (Elem (at_id g id)) (sym (listed q (omega arith)))
          (Elem-map (at_id g) id (child_ids g q r 1) m) in
      (
        ap (in_set s d z) at ∙ id_member q (omega arith),
        subst (λ x. Elem p (kary_node t x).children) (sym at)
            (subst (λ x. Elem x (kary_node t (at_id g q)).children) (sym e) found),
        omega (arith, at, e, id_lt q id less lt),
      )

  down :
      (p c : ℕ)
      → in_set s d z p ≡ true
      → Elem c (kary_node t p).children
      → (in_set s d z c ≡ true) × ((kary_node t c).parent ≡ p) × (c ≢ s)
  down p c member m =
      let (id, lt, e) = member_id p member in
      let (cid, ec, n) =
        Elem-map_inv (at_id g) c (child_ids g id r 1)
          (subst (Elem c) (ap (λ x. (kary_node t x).children) e ∙ listed id lt) m) in
      let (clt, lo, hi) = (child_ids_iff g id r 1 cid).0 n in
      (
        ap (in_set s d z) ec ∙ id_member cid clt,
        ap (λ x. (kary_node t x).parent) ec
            ∙ above cid clt
            ∙ ap (at_id g) (parent_id g id cid lo hi)
            ∙ sym e,
        λ same. omega (arith, same, ec, root_id, id_lt 0 cid (omega arith) clt),
      )

  distinct : (p : ℕ) → in_set s d z p ≡ true → IsDistinct (kary_node t p).children
  distinct p member =
      let (id, lt, e) = member_id p member in
      subst IsDistinct (sym (ap (λ x. (kary_node t x).children) e ∙ listed id lt)) (
        map-IsDistinct (at_id g) (child_ids g id r 1)
          (λ a b m n q.
            same_id a b ((child_ids_iff g id r 1 a).0 m).0 ((child_ids_iff g id r 1 b).0 n).0 q)
          (child_ids-IsDistinct g id r 1))
    where
      same_id : (a b : ℕ) → a < z → b < z → at_id g a ≡ at_id g b → a ≡ b
      same_id a b la lb q = elim (ℕ_discrete a b) [
        | yes e ↦ e
        | no other ↦ elim (dec_lt a b) [
          | yes lt ↦ absurd (omega (arith, q, id_lt a b lt lb))
          | no ge ↦ absurd (omega (arith, q, id_lt b a (omega (arith, other, ge)) la))
        ]
      ]

  kary_shape-IsTree : IsTree kary_shape
  kary_shape-IsTree = record {
    root_in = ap (in_set s d z) (sym root_id) ∙ id_member 0 (omega arith);
    root_inner =
        let m = (up_id 1 (omega arith) two).1 in
        let found : Elem (at_id g 1) (kary_node t s).children =
          subst (λ x. Elem (at_id g 1) (kary_node t x).children) root_id
            (subst (Elem (at_id g 1)) (sym (listed 0 (omega arith))) (
              Elem-map (at_id g) 1 (child_ids g 0 r 1)
                (subst (λ q. Elem 1 (child_ids g q r 1)) (zero-div r) m))) in
        nonempty (kary_node t s).children (at_id g 1) found;
    up = λ p member other. let (a, b, _) = up p member other in (a, b);
    down = down;
    distinct = distinct;
    leaves = λ p c puts _ m. let f : false ≡ true = puts in cc;
    deeper = λ p member other. (up p member other).2;
    bounded = λ p member.
        let (id, lt, e) = (in_set_iff s d z p positive).0 member in
        omega (arith, e, mul-le-mul_left d (succ_le id z lt));
  }
    where
      nonempty : (xs : List ℕ) (c : ℕ) → Elem c xs → 0 < length xs
      nonempty [] c m = absurd m
      nonempty (x ∷ xs) c m = omega arith

  node-same : (p : ℕ) → kary_node t p ≡ node kary_shape p
  node-same p = λ i. record {
    parent = (kary_node t p).parent;
    num_children = sym (length-map (children t (pos p)) pos_part) i;
    children = (kary_node t p).children;
  }

-- For a radix of 2 or more, on an active set <s, d, z> with positive stride and two PEs or more, and with
-- counters at 0, the tree barrier over the tree that `build_kary_tree` computes from the first PE keeps the
-- promise of a barrier in every interleaving: a PE that is through finds its counter at 0 and every PE of
-- the set past its first instruction, some PE can go on while one is not through, no PE runs more than its
-- list, and only this counter is touched.
pub sync_tree_kary-IsBarrier :
    {A : Type 0} (op : A → A → A) (r s d z slot : ℕ) {m : Machine A}
    → 2 ≤ r
    → 0 < d
    → 2 ≤ z
    → Calls (in_set s d z) slot (λ p. sync_tree (kary_node (kary_tree r s d z) p) slot p) m
    → IsBarrier op (in_set s d z) slot m
sync_tree_kary-IsBarrier op r s d z slot radix positive two calls =
    let is_tree = kary_shape-IsTree r s d z slot radix positive two in
    tree-IsBarrier op is_tree (
      Calls-Started
        (λ p member.
          ap (λ x. sync_tree x slot p) (node-same r s d z slot radix positive two p)
          ∙ tree-code is_tree refl (own r s d z slot radix positive two) p member)
        calls)
