-- ===== src/Exchange.antt =====
-- `shmem_internal_alltoall` and `shmem_internal_alltoalls` of src/collectives.c: the instructions that PE `me` of an
-- active set runs, on a pSync that starts at `slot`. Offsets and lengths count bytes; arguments are not
-- negative.
pub mod Peers
pub mod Instructions
pub mod Delivery
pub mod Parts
pub mod Alltoall
pub mod Elements
pub mod Alltoalls
mod Tests
use sandia_shmem.Base.{
  ℕ, zero, suc, ◌+◌, ◌-◌, ◌*◌, ◌/◌, Bool, List, [], ◌∷◌, ◌++◌, Option, none, some, map, ◌==◌,
  if◌then◌else◌,
}
use sandia_shmem.Base.Int.{pos, pos_part}
use sandia_shmem.Collectives.Circular.{circular_iter_next}
use sandia_shmem.Comm.{Instr, put, put_data, quiet, source, target}
use sandia_shmem.Sync.{CollType, TreeNode, sync}

unfoldable pub next_peer : ℕ → ℕ → ℕ → ℕ → ℕ
next_peer peer pe_start pe_stride pe_size =
    pos_part (circular_iter_next (pos peer) (pos pe_start) (pos pe_stride) (pos pe_size))

-- The peers of the loop from `peer` on, until it is back at `start_pe`, with `fuel` rounds at most.
unfoldable pub peers_from : ℕ → ℕ → ℕ → ℕ → ℕ → ℕ → List ℕ
peers_from zero pe_start pe_stride pe_size start_pe peer = []
peers_from (suc fuel) pe_start pe_stride pe_size start_pe peer =
    let following = next_peer peer pe_start pe_stride pe_size in
    let rest = peers_from fuel pe_start pe_stride pe_size start_pe following in
    peer ∷ (if following == start_pe then [] else rest)

-- A set of `pe_size` PEs is through after that many rounds.
unfoldable pub peers : ℕ → ℕ → ℕ → ℕ → List ℕ
peers pe_start pe_stride pe_size me =
    let start_pe = next_peer me pe_start pe_stride pe_size in
    peers_from pe_size pe_start pe_stride pe_size start_pe start_pe

-- The stores of SHMEM_SYNC_VALUE, 0, in the PE's own pSync, from `slot` on.
unfoldable pub clear_psync : ℕ → ℕ → ℕ → List Instr
clear_psync zero slot me = []
clear_psync (suc left) slot me = put slot 0 me ∷ clear_psync left (slot + 1) me

-- `shmem_internal_barrier`
unfoldable pub barrier : CollType → ℕ → TreeNode → ℕ → ℕ → ℕ → ℕ → ℕ → Option (List Instr)
barrier type crossover node pe_start pe_stride pe_size slot me =
    elim (sync type crossover node pe_start pe_stride pe_size slot me) [
      | none ↦ none
      | some rest ↦ some (quiet ∷ rest)
    ]

unfoldable pub alltoall_put : ℕ → ℕ → ℕ → ℕ → ℕ → Instr
alltoall_put len pe_start pe_stride me peer =
    let my_as_rank = (me - pe_start) / pe_stride in
    let peer_as_rank = (peer - pe_start) / pe_stride in
    put_data target (my_as_rank * len) source (peer_as_rank * len) len peer

-- What `alltoall` and `alltoalls` do after their puts; `sync_size` is SHMEM_BARRIER_SYNC_SIZE, which the configuration
-- chooses.
unfoldable pub then_barrier :
    CollType → ℕ → ℕ → TreeNode → ℕ → ℕ → ℕ → ℕ → ℕ → List Instr → Option (List Instr)
then_barrier type crossover sync_size node pe_start pe_stride pe_size slot me puts =
    elim (barrier type crossover node pe_start pe_stride pe_size slot me) [
      | none ↦ none
      | some rest ↦ some (puts ++ (rest ++ clear_psync sync_size slot me))
    ]

unfoldable pub alltoall : CollType → ℕ → ℕ → TreeNode → ℕ → ℕ → ℕ → ℕ → ℕ → ℕ → Option (List Instr)
alltoall type crossover sync_size node len pe_start pe_stride pe_size slot me =
    if len == 0
    then some []
    else then_barrier type crossover sync_size node pe_start pe_stride pe_size slot me
        (map (alltoall_put len pe_start pe_stride me) (peers pe_start pe_stride pe_size me))

-- The loop over the elements of a block of `alltoalls`, with `left` to go, where the strides are `dst` and `sst`.
unfoldable pub elements_from : ℕ → ℕ → ℕ → ℕ → ℕ → ℕ → ℕ → List Instr
elements_from zero dst sst elem_size dest_ptr source_ptr peer = []
elements_from (suc left) dst sst elem_size dest_ptr source_ptr peer =
    put_data target dest_ptr source source_ptr elem_size peer
    ∷ elements_from left dst sst elem_size (dest_ptr + dst * elem_size)
        (source_ptr + sst * elem_size) peer

unfoldable pub alltoalls_puts : ℕ → ℕ → ℕ → ℕ → ℕ → ℕ → ℕ → List ℕ → List Instr
alltoalls_puts dst sst elem_size nelems pe_start pe_stride me [] = []
alltoalls_puts dst sst elem_size nelems pe_start pe_stride me (peer ∷ others) =
    let my_as_rank = (me - pe_start) / pe_stride in
    let peer_as_rank = (peer - pe_start) / pe_stride in
    elements_from nelems dst sst elem_size (my_as_rank * nelems * dst * elem_size)
      (peer_as_rank * nelems * sst * elem_size) peer
    ++ alltoalls_puts dst sst elem_size nelems pe_start pe_stride me others

unfoldable pub alltoalls :
    CollType → ℕ → ℕ → TreeNode → ℕ → ℕ → ℕ → ℕ → ℕ → ℕ → ℕ → ℕ → ℕ → Option (List Instr)
alltoalls type crossover sync_size node dst sst elem_size nelems pe_start pe_stride pe_size slot
      me =
    if nelems == 0
    then some []
    else then_barrier type crossover sync_size node pe_start pe_stride pe_size slot me (
        alltoalls_puts dst sst elem_size nelems pe_start pe_stride me
          (peers pe_start pe_stride pe_size me))
