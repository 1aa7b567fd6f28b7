-- ===== src/Broadcast.antt =====
-- `shmem_internal_bcast_linear` of src/collectives.c: the instructions that PE `me` of an active set runs, on a pSync
-- that starts at `slot`, with the buffer `from` as its source. Arguments are not negative.
pub mod Order
pub mod Instructions
pub mod Kinds
pub mod Delivered
pub mod Live
pub mod Tree
mod Tests
use sandia_shmem.Base.{
  ℕ, zero, suc, ◌+◌, ◌-◌, ◌*◌, Bool, List, [], ◌∷◌, ◌++◌, map, ◌==◌, ◌||◌, if◌then◌else◌,
}
use sandia_shmem.Sync.{TreeNode}
use sandia_shmem.Comm.{Instr, Buffer, put, add, wait, put_data, fence, put_wait, target, eq, ne}

-- The PEs that both loops of the root visit, from `pe` on with `left` to go: all but `me`.
unfoldable pub others_from : ℕ → ℕ → ℕ → ℕ → List ℕ
others_from zero stride pe me = []
others_from (suc left) stride pe me =
    let rest = others_from left stride (pe + stride) me in if pe == me then rest else pe ∷ rest

unfoldable pub bcast_root : Buffer → ℕ → List ℕ → ℕ → ℕ → ℕ → Bool → List Instr
bcast_root from len others pe_size slot me complete =
    map (put_data target 0 from 0 len) others
    ++ (put_wait
        ∷ fence
        ∷ (map (put slot 1) others
            ++ (if complete
                then wait slot eq (pe_size - 1) ∷ put slot 0 me ∷ wait slot eq 0 ∷ []
                else [])))

unfoldable pub bcast_other : ℕ → ℕ → ℕ → Bool → List Instr
bcast_other real_root slot me complete =
    wait slot ne 0
    ∷ put slot 0 me
    ∷ wait slot eq 0
    ∷ (if complete then add slot 1 real_root ∷ [] else [])

unfoldable pub bcast_linear : Buffer → ℕ → ℕ → ℕ → ℕ → ℕ → ℕ → ℕ → Bool → List Instr
bcast_linear from len pe_root pe_start pe_stride pe_size slot me complete =
    let real_root = pe_start + pe_root * pe_stride in
    if (pe_size == 1) || (len == 0)
    then []
    else if real_root == me
    then bcast_root from len (others_from pe_size pe_stride pe_start me) pe_size slot me complete
    else bcast_other real_root slot me complete

-- What a PE that is not the root of the tree does first.
unfoldable pub await_parent : ℕ → ℕ → Bool → List Instr
await_parent parent slot complete =
    wait slot ne 0 ∷ (if complete then add slot 1 parent ∷ [] else [])

-- `bcast_tree`, once the tree is chosen.
unfoldable pub bcast_tree : TreeNode → Buffer → ℕ → ℕ → ℕ → ℕ → Bool → List Instr
unfolding await_parent
bcast_tree t from len pe_size slot me complete =
    let at_root = t.parent == me in
    let send_buf = if at_root then from else target in
    if (pe_size == 1) || (len == 0)
    then []
    else if t.num_children == 0
    then await_parent t.parent slot complete ++ (put slot 0 me ∷ wait slot eq 0 ∷ [])
    else (if at_root then [] else await_parent t.parent slot complete)
      ++ (map (put_data target 0 send_buf 0 len) t.children
          ++ (put_wait
              ∷ fence
              ∷ (map (put slot 1) t.children
                  ++ ((if complete
                        then wait slot eq (t.num_children + (if at_root then 0 else 1)) ∷ []
                        else [])
                      ++ (put slot 0 me ∷ wait slot eq 0 ∷ [])))))
