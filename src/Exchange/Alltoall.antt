-- ===== src/Exchange/Alltoall.antt =====
-- `shmem_internal_alltoall` of src/collectives.c moves every block to its place, in every interleaving.
use mathlib.Core.Path.{subst}
use sandia_shmem.Base.{
  Bool, ℕ, ◌+◌, ◌*◌, ◌<◌, ◌≤◌, ◌≡◌, ◌≢◌, refl, ap, sym, ◌∙◌, ◌⊎◌, inl, inr, true, false, List, [],
  some, map, Elem, Elem-map, Elem-map_inv, arith, ◌==◌, ℕ_discrete, length,
}
use sandia_shmem.Comm.{Instr, source, target, Machine, Runs, step, taken}
use sandia_shmem.Sync.{CollType, dissem, sync}
use sandia_shmem.Sync.Ends.{Calls}
use sandia_shmem.Sync.Linear.{in_set}
use sandia_shmem.Sync.Choice.{tree_node, InJob}
use sandia_shmem.Exchange.{peers, alltoall_put, then_barrier, alltoall}
use sandia_shmem.Exchange.Peers.{at_index, at_index-injective, peers_iff}
use sandia_shmem.Exchange.Parts.{
  run_of, rank, index_member, member_index, block_parts, block_apart, then_barrier-Exchanges,
}
use sandia_shmem.Comm.Flight.{Flight, Flights}
use sandia_shmem.Exchange.Delivery.{ends, block, Exchanges, delivered, ends}

module _ {A : Type 0} (op : A → A → A) (type : CollType)
    (crossover sync_size n r s d z len slot : ℕ) {m : Machine A} (job : InJob n r s d z)
    (legal : type ≢ dissem) (program : ℕ → List Instr)
    (runs : (p : ℕ)
      → alltoall type crossover sync_size (tree_node n r s d z p) len s d z slot p
        ≡ some (program p))
    (calls : Calls (in_set s d z) slot program m) (some_len : 0 < len) where
  open job use {positive}

  abbrev puts : ℕ → List Instr
  puts p = map (alltoall_put len s d p) (peers s d z p)

  alltoall-Exchanges :
      Exchanges op
        (in_set s d z)
        slot
        sync_size
        puts
        (λ p. run_of (sync type crossover (tree_node n r s d z p) s d z slot p))
        m
  unfolding alltoall_put alltoall
  alltoall-Exchanges =
      let nz : (len == 0) ≡ false = ground arith in
      then_barrier-Exchanges op type crossover sync_size n r s d z slot job legal program puts
        (λ p.
          let out : alltoall type crossover sync_size (tree_node n r s d z p) len s d z slot p
              ≡ then_barrier type crossover sync_size (tree_node n r s d z p) s d z slot p
                  (puts p) =
            rw nz refl in
          sym out ∙ runs p)
        calls
        (λ p i mem.
          let (c, e, _) = Elem-map_inv (alltoall_put len s d p) i (peers s d z p) mem in
          (_, _, _, c, e))

  put_at :
      (k j : ℕ)
      → alltoall_put len s d (at_index s d z positive k) (at_index s d z positive j)
        ≡ block (k * len) (j * len) len (at_index s d z positive j)
  unfolding alltoall_put
  put_at k j = rw (rank s d z positive k, rank s d z positive j) refl

  only_put :
      (k j x q o f l : ℕ)
      → k < z
      → j < z
      → x < len
      → in_set s d z q ≡ true
      → Elem (block o f l (at_index s d z positive j)) (puts q)
      → ((q ≡ at_index s d z positive k)
          × (block o f l (at_index s d z positive j)
              ≡ block (k * len) (j * len) len (at_index s d z positive j)))
        ⊎ (k * len + x < o)
        ⊎ (o + l ≤ k * len + x)
  only_put k j x q o f l kz jz lt member mem =
      let (kk, kkz, eq_q) = member_index s d z positive q member in
      let (c, e, listed) =
        Elem-map_inv (alltoall_put len s d q) (block o f l (at_index s d z positive j))
          (peers s d z q) mem in
      let (jj, jjz, eq_c) =
        (peers_iff s d z positive kk c kkz).0 (subst (λ y. Elem c (peers s d z y)) eq_q listed) in
      let shape : block o f l (at_index s d z positive j)
          ≡ block (kk * len) (jj * len) len (at_index s d z positive jj) =
        e
        ∙ ap (λ y. alltoall_put len s d y c) eq_q
        ∙ ap (alltoall_put len s d (at_index s d z positive kk)) eq_c
        ∙ put_at kk jj in
      let (same_o, same_l, same_p) = block_parts shape in
      let same_j : jj ≡ j = at_index-injective s d z positive jj j (sym same_p) in
      elim (ℕ_discrete k kk) [
        | yes same_k ↦ inl (
          eq_q ∙ ap (at_index s d z positive) (sym same_k),
          shape
              ∙ ap (λ y. block (y * len) (jj * len) len (at_index s d z positive jj)) (sym same_k)
              ∙ ap (λ y. block (k * len) (y * len) len (at_index s d z positive y)) same_j,
        )
        | no other ↦ inr (elim (block_apart len k kk x other lt) [
          | inl below ↦ inl (omega (arith, below, same_o))
          | inr above ↦ inr (omega (arith, above, same_o, same_l))
        ])
      ]

-- However the calls of the PEs of the set are interleaved, and whenever a put arrives that no quiet has waited for yet, be
-- a fence a wait for the data in flight or nothing: once any PE of the set has returned, every PE of the set
-- holds at block k of its target the block of the source of the PE of index k that is meant for it. The call is
-- `shmem_internal_alltoall` on a set of two PEs or more, with a barrier other than the dissemination barrier, a
-- radix of 2 or more and counters at 0.
pub alltoall_lem :
    {A : Type 0} (op : A → A → A) (fence_waits : Bool) (type : CollType)
    (crossover sync_size n r s d z len slot : ℕ) {m : Machine A} {f : Flight A}
    → InJob n r s d z
    → type ≢ dissem
    → (program : ℕ → List Instr)
    → ((p : ℕ)
        → alltoall type crossover sync_size (tree_node n r s d z p) len s d z slot p
          ≡ some (program p))
    → Calls (in_set s d z) slot program m
    → Flights op fence_waits m f
    → (returned : ℕ) → in_set s d z returned ≡ true
    → f.machine.prog returned ≡ []
    → (k j x : ℕ) → k < z
    → j < z
    → x < len
    → f.machine.store.mem (s + d * j) target (k * len + x)
      ≡ m.store.mem (s + d * k) source (j * len + x)
alltoall_lem op fence_waits type crossover sync_size n r s d z len slot {m} {f} job legal program
      runs calls ran p0 mp done k j x kz jz lt =
    let some_len : 0 < len = omega (arith, lt) in
    let own =
      put_at op type crossover sync_size n r s d z len slot job legal program runs calls some_len k
        j in
    let listed =
      Elem-map (alltoall_put len s d (s + d * k)) (s + d * j) (peers s d z (s + d * k))
        ((peers_iff s d z job.positive k (s + d * j) kz).1 (j, jz, refl)) in
    delivered
      (alltoall-Exchanges op type crossover sync_size n r s d z len slot job legal program runs
        calls some_len)
      (s + d * k) (k * len) (j * len) len (s + d * j) x (index_member s d z job.positive k kz)
      (subst
        (λ y. Elem y (
          puts op type crossover sync_size n r s d z len slot job legal program runs calls some_len
            (s + d * k)))
        own listed)
      lt
      (λ q o f l member mem.
        only_put op type crossover sync_size n r s d z len slot job legal program runs calls
          some_len k j x q o f l kz jz lt member mem)
      ran p0 mp done

-- However the calls of `shmem_internal_alltoall` of the PEs of the set are interleaved, when there is something to move:
-- while a PE of the set has not returned, some PE can go on, and no PE runs more instructions than its
-- call has. The set has two PEs or more, the barrier is not the dissemination barrier, the radix is 2 or
-- more, and the counters are 0.
pub alltoall-ends :
    {A : Type 0} (op : A → A → A) (type : CollType) (crossover sync_size n r s d z len slot : ℕ)
    {m m' : Machine A}
    → InJob n r s d z
    → type ≢ dissem
    → 0 < len
    → (program : ℕ → List Instr)
    → ((p : ℕ)
        → alltoall type crossover sync_size (tree_node n r s d z p) len s d z slot p
          ≡ some (program p))
    → Calls (in_set s d z) slot program m
    → (ran : Runs op m m')
    → ((p : ℕ)
        → in_set s d z p ≡ true
        → m'.prog p ≢ []
        → (q : ℕ) × (m'' : Machine A) × (step op q m' ≡ some m''))
      × ((p : ℕ) → taken p ran ≤ length (m.prog p))
alltoall-ends op type crossover sync_size n r s d z len slot job legal some_len program runs calls
      ran =
    ends
      (alltoall-Exchanges op type crossover sync_size n r s d z len slot job legal program runs
        calls some_len)
      ran
