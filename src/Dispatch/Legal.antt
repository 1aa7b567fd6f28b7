-- ===== src/Dispatch/Legal.antt =====
-- What `shmem_internal_collectives_init` of src/collectives.c accepts, against what the switches of
-- src/shmem_collectives.h take.
use mathlib.Core.Path.{subst}
use Prim.Native.String.{String}
use text.Mathlib.Text.{◌==◌ as str_eq}
use text.Mathlib.TextEquality.{eq_iff}
use sandia_shmem.Base.{
  ℕ, ◌≡◌, ◌≢◌, ◌↔◌, refl, ap, sym, ◌∙◌, inl, inr, Bool, Bool-cases, true, false, Option, none, some,
  arith,
}
use sandia_shmem.Comm.{Buffer}
use sandia_shmem.Sync.{auto, TreeNode, sync}
use sandia_shmem.Dispatch.{
  Params, initial_types, if_provided, barrier_type_of, bcast_type_of, reduce_type_of,
  collect_type_of, fcollect_type_of, types_init, bcast, op_to_all, collect, fcollect,
}

module _ (crossover pe_root pe_start pe_stride pe_size slot me len : ℕ) (node : TreeNode)
    (from : Buffer) (complete : Bool) where
  barrier_known :
      (o : Option String)
      → sync (if_provided o barrier_type_of auto) crossover node pe_start pe_stride pe_size slot me
        ≢ none
  unfolding sync barrier_type_of
  barrier_known none = ground arith
  barrier_known (some s) = ground arith

  bcast_known :
      (o : Option String)
      → bcast
          (if_provided o bcast_type_of auto)
          crossover
          node
          from
          len
          pe_root
          pe_start
          pe_stride
          pe_size
          slot
          me
          complete
        ≢ none
  unfolding bcast bcast_type_of
  bcast_known none = ground arith
  bcast_known (some s) = ground arith

reduce_known :
    (o : Option String) (atomic : Bool) (crossover size_crossover count type_size pe_size : ℕ)
    → op_to_all
        (if_provided o reduce_type_of auto)
        atomic
        crossover
        size_crossover
        count
        type_size
        pe_size
      ≢ none
unfolding op_to_all reduce_type_of
reduce_known none atomic crossover size_crossover count type_size pe_size = ground arith
reduce_known (some s) atomic crossover size_crossover count type_size pe_size = ground arith

collect_known : (o : Option String) → collect (if_provided o collect_type_of auto) ≢ none
unfolding collect collect_type_of
collect_known none = ground arith
collect_known (some s) = ground arith

not_tree :
    (s : String) (pe_size : ℕ)
    → str_eq s "tree" ≡ false
    → fcollect (fcollect_type_of s auto) pe_size ≢ none
unfolding fcollect fcollect_type_of
not_tree s pe_size other = ground arith

fcollect_known_iff :
    (o : Option String) (pe_size : ℕ)
    → (fcollect (if_provided o fcollect_type_of auto) pe_size ≡ none) ↔ (o ≡ some "tree")
unfolding fcollect fcollect_type_of
fcollect_known_iff none pe_size = (λ e. cc, λ e. cc)
fcollect_known_iff (some s) pe_size = elim (Bool-cases (str_eq s "tree")) [
  | inl it ↦
      let same : s ≡ "tree" = (eq_iff s "tree").0 it in
      (
        (λ _. ap some same),
        (λ _. subst (λ x. fcollect (fcollect_type_of x auto) pe_size ≡ none) (sym same) refl),
      )
  | inr other ↦ (
    (λ e. absurd (not_tree s pe_size other e)),
    (λ e.
        let same : s ≡ "tree" = cc in
        let yes_tree = (eq_iff s "tree").1 same in
        let f : false ≡ true = sym other ∙ yes_tree in absurd cc),
  )
]

-- Whatever the five parameters are, every switch finds a routine for the types that `collectives_init` leaves, for all
-- arguments, but for one case: fcollect raises the error of an illegal type exactly when its parameter is
-- "tree", a name that the initialization takes.
pub types_init-legal :
    (params : Params) (atomic complete : Bool) (from : Buffer) (node : TreeNode)
    (crossover size_crossover count type_size len pe_root pe_start pe_stride pe_size slot me : ℕ)
    → let types = types_init params initial_types in
      (sync types.barrier_type crossover node pe_start pe_stride pe_size slot me ≢ none)
      × (bcast types.bcast_type crossover node from len pe_root pe_start pe_stride pe_size slot me
            complete
          ≢ none)
      × (op_to_all types.reduce_type atomic crossover size_crossover count type_size pe_size ≢ none)
      × (collect types.collect_type ≢ none)
      × ((fcollect types.fcollect_type pe_size ≡ none) ↔ (params.fcollect_algorithm ≡ some "tree"))
unfolding types_init
types_init-legal params atomic complete from node crossover size_crossover count type_size len
      pe_root pe_start pe_stride pe_size slot me =
    (
      barrier_known crossover pe_root pe_start pe_stride pe_size slot me len node from complete
          params.barrier_algorithm,
      bcast_known crossover pe_root pe_start pe_stride pe_size slot me len node from complete
          params.bcast_algorithm,
      reduce_known params.reduce_algorithm atomic crossover size_crossover count type_size pe_size,
      collect_known params.collect_algorithm,
      fcollect_known_iff params.fcollect_algorithm pe_size,
    )
