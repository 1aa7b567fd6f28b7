-- ===== src/Dispatch/Tests.antt =====
-- The choices of src/shmem_collectives.h on some values of the environment.
use sandia_shmem.Base.{◌≡◌, ◌≢◌, ◌↔◌, refl, [], true, false, none, some, arith}
use sandia_shmem.Comm.{source}
use sandia_shmem.Sync.{recdbl, tree, TreeNode, sync}
use sandia_shmem.Dispatch.{
  Params, initial_types, fcollect_type_of, types_init, bcast, op_to_all, collect, fcollect,
  fcollect_recdbl, fcollect_ring,
}
use sandia_shmem.Dispatch.Legal.{types_init-legal}
use sandia_shmem.Dispatch.Power.{IsPower, fcollect_recdbl_iff}

eight_and_six :
    (fcollect recdbl 8 ≡ some fcollect_recdbl) × (fcollect recdbl 6 ≡ some fcollect_ring)
unfolding fcollect
eight_and_six = (refl, refl)

fcollect_recdbl_iff_example :
    (fcollect recdbl 8 ≡ some fcollect_recdbl) ↔ ((recdbl ≡ recdbl) × IsPower 8)
fcollect_recdbl_iff_example = fcollect_recdbl_iff recdbl 8 (omega arith)

-- A name that no switch takes, and one that only the initialization takes.
abbrev params : Params
params = record {
  barrier_algorithm = some "linaer";
  bcast_algorithm = none;
  reduce_algorithm = some "recdbl";
  collect_algorithm = none;
  fcollect_algorithm = some "tree";
}

abbrev leaf : TreeNode
leaf = record { parent = 0; num_children = 0; children = [] }

types_read : (types_init params initial_types).fcollect_type ≡ tree
unfolding types_init fcollect_type_of
types_read = refl

types_init-legal_example :
    let types = types_init params initial_types in
    (sync types.barrier_type 4 leaf 0 1 8 0 3 ≢ none)
    × (bcast types.bcast_type 4 leaf source 5 0 0 1 8 0 3 true ≢ none)
    × (op_to_all types.reduce_type false 4 16384 10 4 8 ≢ none)
    × (collect types.collect_type ≢ none)
    × ((fcollect types.fcollect_type 8 ≡ none) ↔ (params.fcollect_algorithm ≡ some "tree"))
types_init-legal_example = types_init-legal params false true source leaf 4 16384 10 4 5 0 0 1 8 0 3
