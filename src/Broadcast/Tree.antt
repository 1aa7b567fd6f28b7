-- ===== src/Broadcast/Tree.antt =====
-- The tree that `shmem_internal_bcast_tree` of src/collectives.c takes.
use sandia_shmem.Base.{ℕ, ◌==◌, ◌&&◌, if◌then◌else◌}
use sandia_shmem.Base.Int.{pos}
use sandia_shmem.Collectives.FullTree.{full_tree}
use sandia_shmem.Sync.{TreeNode}
use sandia_shmem.Sync.Trees.Full.{full_node}
use sandia_shmem.Sync.Trees.Kary.{kary_tree, kary_node}

-- At the PE `me`, for the active set <s, d, z> in a job of `n` PEs, from the index `root`.
unfoldable pub bcast_node : ℕ → ℕ → ℕ → ℕ → ℕ → ℕ → ℕ → TreeNode
bcast_node n r s d z root me =
    if (z == n) && (root == 0)
    then full_node (full_tree n r me)
    else kary_node (record (kary_tree r s d z) { pe_root = pos root }) me
