-- ===== src/Dispatch.antt =====
-- Which algorithm a collective runs: `shmem_internal_collectives_init` of src/collectives.c, which reads it from the
-- environment, and the switches of src/shmem_collectives.h.
pub mod Legal
pub mod Power
mod Tests
use Prim.Native.Nat.{bit_and}
use Prim.Native.String.{String}
use text.Mathlib.Text.{◌==◌ as str_eq}
use sandia_shmem.Base.{ℕ, ◌+◌, ◌-◌, ◌*◌, Bool, List, Option, none, some, ltb, ◌==◌, if◌then◌else◌}
use sandia_shmem.Comm.{Instr, Buffer}
use sandia_shmem.Sync.{CollType, auto, linear, tree, dissem, ring, recdbl, TreeNode}
use sandia_shmem.Broadcast.{bcast_linear, bcast_tree}

pub record Types : Type 0 where
  pub barrier_type : CollType
  pub bcast_type : CollType
  pub reduce_type : CollType
  pub collect_type : CollType
  pub fcollect_type : CollType

-- The values before the initialization.
abbrev pub initial_types : Types
initial_types = record {
  barrier_type = auto;
  bcast_type = auto;
  reduce_type = auto;
  collect_type = auto;
  fcollect_type = auto;
}

-- The five parameters; `none` is one that is not provided.
pub record Params : Type 0 where
  pub barrier_algorithm : Option String
  pub bcast_algorithm : Option String
  pub reduce_algorithm : Option String
  pub collect_algorithm : Option String
  pub fcollect_algorithm : Option String

-- A name that is not known leaves the type as it was; the warning is left out.
unfoldable pub barrier_type_of : String → CollType → CollType
barrier_type_of type old =
    if str_eq type "auto"
    then auto
    else if str_eq type "linear"
    then linear
    else if str_eq type "tree"
    then tree
    else if str_eq type "dissem"
    then dissem
    else old

unfoldable pub bcast_type_of : String → CollType → CollType
bcast_type_of type old =
    if str_eq type "auto"
    then auto
    else if str_eq type "linear"
    then linear
    else if str_eq type "tree"
    then tree
    else old

unfoldable pub reduce_type_of : String → CollType → CollType
reduce_type_of type old =
    if str_eq type "auto"
    then auto
    else if str_eq type "linear"
    then linear
    else if str_eq type "ring"
    then ring
    else if str_eq type "tree"
    then tree
    else if str_eq type "recdbl"
    then recdbl
    else old

unfoldable pub collect_type_of : String → CollType → CollType
collect_type_of type old =
    if str_eq type "auto" then auto else if str_eq type "linear" then linear else old

unfoldable pub fcollect_type_of : String → CollType → CollType
fcollect_type_of type old =
    if str_eq type "auto"
    then auto
    else if str_eq type "linear"
    then linear
    else if str_eq type "tree"
    then tree
    else if str_eq type "ring"
    then ring
    else if str_eq type "recdbl"
    then recdbl
    else old

abbrev pub if_provided : Option String → (String → CollType → CollType) → CollType → CollType
if_provided none type_of old = old
if_provided (some type) type_of old = type_of type old

-- The last part of `collectives_init`.
unfoldable pub types_init : Params → Types → Types
types_init params types = record {
  barrier_type = if_provided params.barrier_algorithm barrier_type_of types.barrier_type;
  bcast_type = if_provided params.bcast_algorithm bcast_type_of types.bcast_type;
  reduce_type = if_provided params.reduce_algorithm reduce_type_of types.reduce_type;
  collect_type = if_provided params.collect_algorithm collect_type_of types.collect_type;
  fcollect_type = if_provided params.fcollect_algorithm fcollect_type_of types.fcollect_type;
}

-- `shmem_internal_bcast`; as in all switches, `none` is the error of an illegal type.
unfoldable pub bcast :
    CollType → ℕ → TreeNode → Buffer → ℕ → ℕ → ℕ → ℕ → ℕ → ℕ → ℕ → Bool → Option (List Instr)
bcast type crossover node from len pe_root pe_start pe_stride pe_size slot me complete = elim type [
  | auto ↦
      if ltb pe_size crossover
      then some (bcast_linear from len pe_root pe_start pe_stride pe_size slot me complete)
      else some (bcast_tree node from len pe_size slot me complete)
  | linear ↦ some (bcast_linear from len pe_root pe_start pe_stride pe_size slot me complete)
  | tree ↦ some (bcast_tree node from len pe_size slot me complete)
  | _ ↦ none
]

-- The routines that the other switches call.
pub data Reduction : Type 0 where
  op_to_all_linear op_to_all_tree op_to_all_ring op_to_all_recdbl_sw : Reduction

pub data Collection : Type 0 where
  collect_linear fcollect_linear fcollect_ring fcollect_recdbl : Collection

-- `shmem_internal_op_to_all`, where `atomic` is what `shmem_transport_atomic_supported` answers.
unfoldable pub op_to_all : CollType → Bool → ℕ → ℕ → ℕ → ℕ → ℕ → Option Reduction
op_to_all type atomic crossover size_crossover count type_size pe_size = elim type [
  | auto ↦
      if atomic
      then (if ltb pe_size crossover then some op_to_all_linear else some op_to_all_tree)
      else (if ltb (count * type_size) size_crossover
          then some op_to_all_recdbl_sw
          else some op_to_all_ring)
  | linear ↦ if atomic then some op_to_all_linear else some op_to_all_recdbl_sw
  | ring ↦ some op_to_all_ring
  | tree ↦ if atomic then some op_to_all_tree else some op_to_all_recdbl_sw
  | recdbl ↦ some op_to_all_recdbl_sw
  | dissem ↦ none
]

-- `shmem_internal_collect`
unfoldable pub collect : CollType → Option Collection
collect auto = some collect_linear
collect linear = some collect_linear
collect _ = none

-- `shmem_internal_fcollect`; the bits of `pe_size`, which is positive, and of `pe_size - 1`
unfoldable pub fcollect : CollType → ℕ → Option Collection
fcollect type pe_size = elim type [
  | auto ↦ some fcollect_ring
  | linear ↦ some fcollect_linear
  | ring ↦ some fcollect_ring
  | recdbl ↦ if bit_and pe_size (pe_size - 1) == 0 then some fcollect_recdbl else some fcollect_ring
  | _ ↦ none
]
