-- ===== src/Sync/Choice.antt =====
-- `shmem_internal_sync` of src/shmem_collectives.h: the algorithm and the tree that it chooses.
use mathlib.Core.Path.{subst}
use native.Mathlib.Nat.{mul-le-mul}
use sandia_shmem.Base.{
  ℕ, ◌+◌, ◌-◌, ◌*◌, ◌<◌, ◌≤◌, ◌≡◌, ◌≢◌, refl, ap, sym, ◌∙◌, inl, inr, Bool-cases, false, List, some,
  arith, ltb, ◌==◌, if◌then◌else◌, ==_iff, dec_lt, none_some, some-injective,
}
use sandia_shmem.Comm.{Instr, Machine}
use sandia_shmem.Collectives.FullTree.{full_tree}
use sandia_shmem.Sync.{
  TreeNode, CollType, auto, linear, tree, dissem, ring, recdbl, sync, sync_linear, sync_tree,
}
use sandia_shmem.Sync.Ends.{Calls, IsBarrier}
use sandia_shmem.Sync.Linear.{in_set, in_set_iff, sync_linear-IsBarrier}
use sandia_shmem.Sync.Trees.Full.{full_node, sync_tree-IsBarrier}
use sandia_shmem.Sync.Trees.Kary.{kary_tree, kary_node, sync_tree_kary-IsBarrier}

-- The tree that `sync_tree` takes at the PE `me` of an active set <s, d, z> in a job of `n` PEs.
unfoldable pub tree_node : ℕ → ℕ → ℕ → ℕ → ℕ → ℕ → TreeNode
tree_node n r s d z me =
    if z == n then full_node (full_tree n r me) else kary_node (kary_tree r s d z) me

-- The hypotheses that the call's arguments satisfy: the set <s, d, z> of two PEs or more lies in the job.
pub record InJob (n r s d z : ℕ) : Type 0 where
  pub radix : 2 ≤ r
  pub positive : 0 < d
  pub two : 2 ≤ z
  pub inside : s + d * (z - 1) < n

-- A set as large as the job is the whole job.
in_set-all :
    (n s d z p : ℕ) → 0 < d → 2 ≤ z → s + d * (z - 1) < n → z ≡ n → in_set s d z p ≡ ltb p n
in_set-all n s d z p positive two inside all = elim (Bool-cases (ltb p n)) [
  | inl lt ↦
      (in_set_iff s d z p positive).1
        (p, ground arith, omega (arith, start, ap (λ x. x * p) stride))
      ∙ sym lt
  | inr out ↦ elim (Bool-cases (in_set s d z p)) [
    | inl member ↦
        let (k, lt, e) = (in_set_iff s d z p positive).0 member in
        absurd (ground (arith, e, start, ap (λ x. x * k) stride))
    | inr outside ↦ outside ∙ sym out
  ]
]
  where
    wide : z - 1 ≤ d * (z - 1)
    wide = omega (arith, mul-le-mul positive (id_le (z - 1)))
      where
        id_le : (x : ℕ) → x ≤ x
        id_le x = omega arith

    start : s ≡ 0
    start = omega (arith, wide, inside, all, two)

    stride : d ≡ 1
    stride = elim (dec_lt 1 d) [
      | no le ↦ omega (arith, le, positive)
      | yes more ↦ absurd (omega (arith, inside, all, two, mul-le-mul more (id_le (z - 1))))
    ]
      where
        id_le : (x : ℕ) → x ≤ x
        id_le x = omega arith

module _ {A : Type 0} (op : A → A → A) (n r s d z slot : ℕ) {m : Machine A}
    (job : InJob n r s d z) where
  open job use {radix, positive, two, inside}

  same-Calls :
      {program other : ℕ → List Instr}
      → ((p : ℕ) → program p ≡ other p)
      → Calls (in_set s d z) slot program m
      → Calls (in_set s d z) slot other m
  same-Calls same calls = subst (λ f. Calls (in_set s d z) slot f m) (λ i p. same p i) calls

  chosen_tree :
      Calls (in_set s d z) slot (λ p. sync_tree (tree_node n r s d z p) slot p) m
      → IsBarrier op (in_set s d z) slot m
  unfolding tree_node
  chosen_tree calls = elim (Bool-cases (z == n)) [
    | inl all ↦
        let set : in_set s d z ≡ (λ p. ltb p n) =
          λ i p. in_set-all n s d z p positive two inside ((==_iff z n).0 all) i in
        subst (λ b. IsBarrier op b slot m) (sym set)
          (sync_tree-IsBarrier op n r slot radix (omega (arith, two, (==_iff z n).0 all)) (
            subst (λ b. Calls b slot (λ p. sync_tree (full_node (full_tree n r p)) slot p) m) set
              (same-Calls (λ p. rw all refl) calls)))
    | inr part ↦
        sync_tree_kary-IsBarrier op r s d z slot radix positive two
          (same-Calls (λ p. rw part refl) calls)
  ]

-- `shmem_internal_sync` with a type other than the dissemination barrier, called by all PEs of a set of two
-- PEs or more that lies in the job, with a radix of 2 or more, counters at 0 and the same arguments but for
-- the PE's own tree, keeps the promise of a barrier in every interleaving: a PE that is through finds its
-- counter at 0 and every PE of the set past its first instruction, some PE can go on while one is not
-- through, no PE runs more than its list, and only this counter is touched. This is for the calls that give
-- a program, not the error of an illegal type.
pub sync-IsBarrier :
    {A : Type 0} (op : A → A → A) (type : CollType) (crossover n r s d z slot : ℕ) {m : Machine A}
    → InJob n r s d z
    → type ≢ dissem
    → (program : ℕ → List Instr)
    → ((p : ℕ) → sync type crossover (tree_node n r s d z p) s d z slot p ≡ some (program p))
    → Calls (in_set s d z) slot program m
    → IsBarrier op (in_set s d z) slot m
unfolding sync
sync-IsBarrier op type crossover n r s d z slot {m} job not_dissem program runs calls =
    by_type type not_dissem runs
  where
    many : (z == 1) ≡ false
    many = let two = job.two in ground arith

    linear_case :
        ((p : ℕ) → some (sync_linear s d z slot p) ≡ some (program p))
        → IsBarrier op (in_set s d z) slot m
    linear_case e =
        sync_linear-IsBarrier op s d z slot job.positive job.two
          (same-Calls op n r s d z slot job (λ p. sym (some-injective (e p))) calls)

    tree_case :
        ((p : ℕ) → some (sync_tree (tree_node n r s d z p) slot p) ≡ some (program p))
        → IsBarrier op (in_set s d z) slot m
    tree_case e =
        chosen_tree op n r s d z slot job
          (same-Calls op n r s d z slot job (λ p. sym (some-injective (e p))) calls)

    by_type :
        (type : CollType)
        → type ≢ dissem
        → ((p : ℕ) → sync type crossover (tree_node n r s d z p) s d z slot p ≡ some (program p))
        → IsBarrier op (in_set s d z) slot m
    by_type auto other e = elim (Bool-cases (ltb z crossover)) [
      | inl small ↦ linear_case (λ p.
          let chosen : sync auto crossover (tree_node n r s d z p) s d z slot p
              ≡ some (sync_linear s d z slot p) =
            rw (many, small) refl in
          sym chosen ∙ e p)
      | inr large ↦ tree_case (λ p.
          let chosen : sync auto crossover (tree_node n r s d z p) s d z slot p
              ≡ some (sync_tree (tree_node n r s d z p) slot p) =
            rw (many, large) refl in
          sym chosen ∙ e p)
    ]
    by_type linear other e = linear_case (λ p.
        let chosen : sync linear crossover (tree_node n r s d z p) s d z slot p
            ≡ some (sync_linear s d z slot p) =
          rw many refl in
        sym chosen ∙ e p)
    by_type tree other e = tree_case (λ p.
        let chosen : sync tree crossover (tree_node n r s d z p) s d z slot p
            ≡ some (sync_tree (tree_node n r s d z p) slot p) =
          rw many refl in
        sym chosen ∙ e p)
    by_type dissem other e = absurd (other refl)
    by_type ring other e =
        none_some {x = sync ring crossover (tree_node n r s d z 0) s d z slot 0} (rw many refl)
          (e 0)
    by_type recdbl other e =
        none_some {x = sync recdbl crossover (tree_node n r s d z 0) s d z slot 0} (rw many refl)
          (e 0)
