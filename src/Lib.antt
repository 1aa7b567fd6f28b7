-- ===== src/Lib.antt =====
-- A verification library for Sandia OpenSHMEM. One half is about the decisions that its PEs take from their own
-- state and must agree on without a message, that is who is in a set, which slot a team takes, who is whose
-- parent; the other about collectives as they run: the PEs in any order, on counters and memory they share.
--
-- The program's parts, and the files that model them (paths from the repository's root):
--
--   * src/shmem_internal.h, the bit sets in byte arrays, `shmem_internal_bit_set`, `_clear`, `_fetch` and
--     `_1st_nonzero`: BitSet, on lists of numbers below 256. BitSet/Laws is about single bits,
--     BitSet/First about the search.
--   * src/shmem_internal.h, `shmem_internal_pe_in_active_set`, and src/shmem_team.h,
--     `shmem_internal_team_pe`: ActiveSet.
--   * src/shmem_team.h and src/shmem_team.c, the teams: Team has the data and the state of one PE. A team
--     is its slot in `shmem_internal_team_pool`, and the pool is the store that C pointers share; a pSync
--     array is an offset into `shmem_internal_psync_pool`. Team/Pool is the invariant of that state.
--     Team/Init is `shmem_internal_team_init`, Team/Stride its search for a stride, Team/Psync
--     `_choose_psync` and `_release_psyncs`, Team/Split `_split_strided` with Team/Reduce for the two
--     reductions in it, Team/Split2d the arguments that `_split_2d` computes for its calls,
--     Team/Translate `_translate_pe`, Team/Destroy `_destroy` and `_fini`.
--   * src/collectives.c, the shapes of the collectives: Collectives/Kary is
--     `shmem_internal_build_kary_tree`, Collectives/FullTree the tree over all PEs that
--     `shmem_internal_collectives_init` builds, Collectives/Circular `shmem_internal_circular_iter_next`.
--   * src/collectives.c, the barriers, and their choice in src/shmem_collectives.h: Comm is a machine that
--     runs the lists of communication calls of all PEs, one call of one PE at a time, in any order, on
--     counters that stand for the pSyncs. Sync has the lists that `shmem_internal_sync_linear`,
--     `_sync_tree`, `_sync_dissem` and `shmem_internal_sync` amount to. Sync/Shape and Sync/Inv set up
--     the argument for a barrier over any tree, Sync/Moves to Sync/Steps carry it through each
--     instruction, Sync/Barrier, Sync/Progress and Sync/Ends conclude; Sync/Linear, Sync/Trees and
--     Sync/Choice apply it to the trees of the code.
--   * src/collectives.c, `shmem_internal_alltoall` and `_alltoalls`: Exchange, on the same machine, and on that of
--     Comm/Flight, which has data in flight. Comm/Flight/Shadow relates a run of the one to a run of the other.
--     Sync/Framed lets a barrier stand between other calls, Comm/Flight/Cells follows one cell of memory
--     through a run, and Exchange/Delivery joins the two; Exchange/Peers and Exchange/Elements say whom a PE sends what.
--   * src/collectives.c, `shmem_internal_bcast_linear`: Broadcast, on the same machines. Broadcast/Kinds
--     sorts its instructions, Broadcast/Delivered is about the data, Broadcast/Live about the waits.
--     Broadcast also has the list that `shmem_internal_bcast_tree` amounts to, Broadcast/Tree its tree.
--   * src/collectives.c, the end of `shmem_internal_collectives_init`, and the switches of
--     src/shmem_collectives.h: Dispatch, from the parameters of the environment to the routine that runs.
--     Dispatch/Legal is about all switches, Dispatch/Power about the bit test in that of fcollect.
--   * src/shmem_lock.h: Lock, a step relation on the words of the lock and the place of each PE in its call.
--     Lock/Words and Lock/Links are about the words, Lock/Queue is the invariant, Lock/Steps, Lock/Joins
--     and Lock/Leaves are what happens to it, Lock/Spots finds a PE in it; Lock/SetLock and
--     Lock/ClearLock go through the operations of the calls, and Lock/Order and Lock/Progress conclude.
--   * src/transport_ofi.c, the transmit contexts (STX) that contexts share: Stx, with the pool, the table
--     of private STXs and the variables of the searches as its state. Stx/Leases is the invariant,
--     Stx/Search about `shmem_transport_ofi_stx_search_unused` and `_search_shared`, Stx/Users and
--     Stx/Allocate about `shmem_transport_ofi_stx_allocate`, Stx/Release about the part of
--     `shmem_transport_ctx_destroy` that gives an STX back, Stx/Reached about any sequence of such calls.
--     Stx/Auto is how many STXs a PE has, from `shmem_transport_init` and `shmem_transport_startup`.
--   * src/util.c, `shmem_util_wrap`: Util, with every store checked against the size of the buffer. Util/Chars,
--     Util/Stores, Util/Lines and Util/Rounds lead up to Util/Bounds.
--   * src/symmetric_heap_c.c, `shmem_internal_get_next` and `shmem_internal_symmetric_init`: Heap.
--   * src/shmem_free_list.h and src/shmem_free_list.c: FreeList, with the links of the items as a store
--     from addresses.
--   * src/runtime_util.c: Runtime, with Runtime/Hex for `shmem_runtime_util_encode` and `_decode` and
--     Runtime/Node for `shmem_runtime_util_populate_node`, where the host name and the answers of the
--     key-value store are arguments.
--
-- Base has the names and lemmas that these share: lists, C integers (Base/Int) and bytes (Base/Byte,
-- Base/And).
--
-- How the parts meet: a split is one definition for a whole job, a function from the number of a PE to
-- its state. Each PE reads the reduction of every member's bits, takes a slot by `pick_slot`, and
-- reaches the barrier through the pSyncs of Team/Psync; Team/Split/Create follows one PE through the
-- call and Team/Split/Agree sets the PEs side by side.
--
-- Numbers: a C `int` or `long` is an exact integer, since its overflow is undefined; division and remainder
-- truncate as in C; `(size_t) -1` is 2 ^ 64 - 1; an `unsigned char` is below 256. The two loops of the tree
-- over all PEs narrow `i *= tree_radix` from `long` to `int`, which is implementation-defined and not undefined;
-- they are exact here too, which differs only from a COLL_RADIX of 2^31 or about 2^30 PEs on. They take fuel,
-- n + 1 rounds for n PEs, since their variable at least doubles. A quotient in `float` that is rounded
-- up is the exact ceiling, as it is in the code up to 2^24 PEs.
--
-- Communication: an operation on a counter takes effect at its call, in the order of the calls of the PE; a wait is a
-- step that is enabled once its comparison holds. On the machine of Comm, which the barriers and the
-- theorems about progress use, data arrives at the call too. The theorems about what has arrived are on the
-- machine of Comm/Flight, where data that is put is in flight from the call on, arrives at any later
-- time and in any order, also across the calls of other PEs, and is read from its source when it arrives.
-- There `quiet` ends only when nothing of the PE is in flight. Whether `fence` does the same is a parameter: it
-- does in `shmem_transport_fence` of src/transport_ofi.h unless the transport keeps the order of data
-- (WANT_TOTAL_DATA_ORDERING, whose order is not modelled); otherwise it does nothing. The exchanges are right
-- either way, the broadcast is about a fence that waits. The wait for local completion (`put_wait`) says
-- nothing about arrival. A put arrives whole, and its arrival needs no one's call. Counters are exact natural
-- numbers. The source and the target of a collective are separate memory. The rounds of the dissemination
-- barrier take fuel, pe_size + 1 for pe_size PEs, since the distance doubles; the loop over the peers takes
-- pe_size rounds, in which it is back at its start.
--
-- Reductions: `shmem_internal_op_to_all` stands, in a split, for the combination of all members' values
-- in the order of their indices, the contract of the operation.
-- Every PE of a split is taken to make the call with its parent in the same slot, and a handle is a slot
-- that may be empty.
--
-- Fuel: the loop of `shmem_util_wrap` has (n + 1) (n + 2) + 1 rounds for a text of n characters; each of at most n lines
-- that it starts takes at most n + 1 rounds.
--
-- Parameters: the table of uthash.h and `rand_r` in Stx. A random search for an STX takes as many draws as a setting
-- says; that they are enough is a hypothesis where the settings ask for a random search, and the
-- round-robin search needs none. The atomic operations of the transports are single steps in Lock.
--
-- Not modelled: reductions and collects as they run, point-to-point synchronization; contexts,
-- data movement and atomics, which dispatch to the transports; the environment, start-up and the
-- run-time interfaces; the rest of the transports, which call libraries that are not in the repository; malloc.c,
-- uthash.h and pmi-simple, which are copies of other projects; the bindings.
-- In what is modelled: warnings and debug output, and in the teams the contents of
-- the pSync arrays.
pub mod Base
pub mod BitSet
pub mod ActiveSet
pub mod Team
pub mod Collectives
pub mod Comm
pub mod Sync
pub mod Exchange
pub mod Broadcast
pub mod Dispatch
pub mod Lock
pub mod Stx
pub mod Util
pub mod Heap
pub mod FreeList
pub mod Runtime
