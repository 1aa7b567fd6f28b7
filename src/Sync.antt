-- ===== src/Sync.antt =====
-- The barriers of src/collectives.c, `shmem_internal_sync_linear`, `_sync_tree` and `_sync_dissem`, and the choice
-- between them in src/shmem_collectives.h: the instructions that PE `me` of an active set runs, on a
-- pSync that starts at `slot`. Arguments are not negative.
pub mod Count
pub mod Shape
pub mod Inv
pub mod Moves
pub mod Changes
pub mod Acks
pub mod Steps
pub mod Safety
pub mod Barrier
pub mod Progress
pub mod Ends
pub mod Framed
pub mod Linear
pub mod Trees
pub mod Choice
mod Tests
use sandia_shmem.Base.{
  ℕ, zero, suc, ◌+◌, ◌-◌, ◌*◌, ◌/◌, ◌%◌, Bool, List, [], ◌∷◌, ◌++◌, Option, none, some, map, length,
  ltb, ◌==◌, if◌then◌else◌,
}
use sandia_shmem.Comm.{Instr, put, add, sub_one, wait, quiet, eq, ne}

-- The loop that sends the acks of `sync_linear`, from PE `pe` on with `left` to go.
unfoldable pub ack_from : ℕ → ℕ → ℕ → ℕ → List Instr
ack_from slot stride zero pe = []
ack_from slot stride (suc left) pe = put slot 1 pe ∷ ack_from slot stride left (pe + stride)

unfoldable pub sync_linear : ℕ → ℕ → ℕ → ℕ → ℕ → List Instr
unfolding ack_from
sync_linear pe_start pe_stride pe_size slot me =
    if pe_start == me
    then wait slot eq (pe_size - 1)
      ∷ put slot 0 me
      ∷ wait slot eq 0
      ∷ ack_from slot pe_stride (pe_size - 1) (pe_start + pe_stride)
    else add slot 1 pe_start ∷ wait slot ne 0 ∷ put slot 0 me ∷ wait slot eq 0 ∷ []

-- The tree that a PE has computed.
pub record TreeNode : Type 0 where
  pub parent : ℕ
  pub num_children : ℕ
  pub children : List ℕ

-- `sync_tree`, once the tree is chosen.
unfoldable pub sync_tree : TreeNode → ℕ → ℕ → List Instr
sync_tree t slot me =
    if t.num_children == 0
    then add slot 1 t.parent ∷ wait slot ne 0 ∷ put slot 0 me ∷ wait slot eq 0 ∷ []
    else wait slot eq t.num_children
      ∷ (if t.parent == me
          then put slot 0 me ∷ wait slot eq 0 ∷ map (add slot 1) t.children
          else add slot 1 t.parent
            ∷ wait slot eq (t.num_children + 1)
            ∷ put slot 0 me
            ∷ wait slot eq 0
            ∷ map (add slot 1) t.children)

-- The loop of `sync_dissem` from round `i`, with the distance `distance` and `fuel` rounds at most.
unfoldable pub dissem_from : ℕ → ℕ → ℕ → ℕ → ℕ → ℕ → ℕ → ℕ → List Instr
dissem_from zero pe_start pe_stride pe_size slot me i distance = []
dissem_from (suc fuel) pe_start pe_stride pe_size slot me i distance =
    let rest = dissem_from fuel pe_start pe_stride pe_size slot me (i + 1) (distance * 2) in
    let coll_rank = (me - pe_start) / pe_stride in
    let to = pe_start + (coll_rank + distance) % pe_size * pe_stride in
    if ltb distance pe_size
    then add (slot + i) 1 to ∷ wait (slot + i) ne 0 ∷ sub_one (slot + i) me ∷ rest
    else quiet ∷ []

-- A distance doubles from 1 on, so `pe_size` rounds are enough for the loop to end.
unfoldable pub sync_dissem : ℕ → ℕ → ℕ → ℕ → ℕ → List Instr
unfolding dissem_from
sync_dissem pe_start pe_stride pe_size slot me =
    dissem_from (pe_size + 1) pe_start pe_stride pe_size slot me 0 1

-- `shmem_internal_barrier_type`
pub data CollType : Type 0 where
  auto linear tree dissem ring recdbl : CollType

-- `shmem_internal_sync`, where `crossover` is COLL_CROSSOVER and `node` the tree of `me`. `none` is the error of an
-- illegal type. The flushes of output and memory are left out.
unfoldable pub sync : CollType → ℕ → TreeNode → ℕ → ℕ → ℕ → ℕ → ℕ → Option (List Instr)
unfolding sync_linear sync_tree sync_dissem
sync type crossover node pe_start pe_stride pe_size slot me =
    if pe_size == 1 then some [] else elim type [
      | auto ↦
          if ltb pe_size crossover
          then some (sync_linear pe_start pe_stride pe_size slot me)
          else some (sync_tree node slot me)
      | linear ↦ some (sync_linear pe_start pe_stride pe_size slot me)
      | tree ↦ some (sync_tree node slot me)
      | dissem ↦ some (sync_dissem pe_start pe_stride pe_size slot me)
      | _ ↦ none
    ]
