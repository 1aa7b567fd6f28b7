-- ===== src/Exchange/Alltoalls.antt =====
-- `shmem_internal_alltoalls` of src/collectives.c moves every element to its place, in every interleaving.
use sandia_shmem.Base.{
  Bool, ℕ, ◌+◌, ◌*◌, ◌<◌, ◌≤◌, ◌≡◌, ◌≢◌, refl, sym, ◌∙◌, true, false, List, [], some, arith, ◌==◌,
  length,
}
use sandia_shmem.Comm.{Instr, source, target, Machine, Runs, step, taken}
use sandia_shmem.Sync.{CollType, dissem, sync}
use sandia_shmem.Sync.Ends.{Calls}
use sandia_shmem.Sync.Linear.{in_set}
use sandia_shmem.Sync.Choice.{tree_node, InJob}
use sandia_shmem.Exchange.{peers, then_barrier, alltoalls_puts, alltoalls}
use sandia_shmem.Exchange.Parts.{run_of, index_member, then_barrier-Exchanges}
use sandia_shmem.Comm.Flight.{Flight, Flights}
use sandia_shmem.Exchange.Delivery.{ends, Exchanges, delivered}
use sandia_shmem.Exchange.Elements.{element, only_element, puts-blocks, all_puts_iff}

module _ {A : Type 0} (op : A → A → A) (type : CollType)
    (crossover sync_size n r s d z dst sst es nelems slot : ℕ) {m : Machine A}
    (job : InJob n r s d z) (legal : type ≢ dissem) (program : ℕ → List Instr)
    (runs : (p : ℕ)
      → alltoalls type crossover sync_size (tree_node n r s d z p) dst sst es nelems s d z slot p
        ≡ some (program p))
    (calls : Calls (in_set s d z) slot program m) (some_elements : 0 < nelems) where
  abbrev all_puts : ℕ → List Instr
  all_puts p = alltoalls_puts dst sst es nelems s d p (peers s d z p)

  alltoalls-Exchanges :
      Exchanges op
        (in_set s d z)
        slot
        sync_size
        all_puts
        (λ p. run_of (sync type crossover (tree_node n r s d z p) s d z slot p))
        m
  unfolding alltoalls
  alltoalls-Exchanges =
      let nz : (nelems == 0) ≡ false = ground arith in
      then_barrier-Exchanges op type crossover sync_size n r s d z slot job legal program all_puts
        (λ p.
          let out : alltoalls type crossover sync_size (tree_node n r s d z p) dst sst es nelems s d
                z slot p
              ≡ then_barrier type crossover sync_size (tree_node n r s d z p) s d z slot p
                  (all_puts p) =
            rw nz refl in
          sym out ∙ runs p)
        calls (λ p i mem. puts-blocks dst sst es nelems s d p (peers s d z p) i mem)

-- However the calls of `shmem_internal_alltoalls` of the PEs of the set are interleaved, and whenever a put arrives that no
-- quiet has waited for yet, be a fence a wait for the data in flight or nothing, with a positive target stride:
-- once any PE of the set has returned, every PE of the set holds, byte for byte, each element that each PE has
-- for it, the elements of a block `dst` elements apart in the target and `sst` apart in the source. The set
-- has two PEs or more, the barrier is not the dissemination barrier, the radix is 2 or more, and the
-- counters are 0.
pub alltoalls_lem :
    {A : Type 0} (op : A → A → A) (fence_waits : Bool) (type : CollType)
    (crossover sync_size n r s d z dst sst es nelems slot : ℕ) {m : Machine A} {f : Flight A}
    → InJob n r s d z
    → type ≢ dissem
    → 0 < dst
    → (program : ℕ → List Instr)
    → ((p : ℕ)
        → alltoalls type crossover sync_size (tree_node n r s d z p) dst sst es nelems s d z slot p
          ≡ some (program p))
    → Calls (in_set s d z) slot program m
    → Flights op fence_waits m f
    → (returned : ℕ) → in_set s d z returned ≡ true
    → f.machine.prog returned ≡ []
    → (k j e y : ℕ) → k < z
    → j < z
    → e < nelems
    → y < es
    → f.machine.store.mem (s + d * j) target ((k * nelems + e) * (dst * es) + y)
      ≡ m.store.mem (s + d * k) source ((j * nelems + e) * (sst * es) + y)
alltoalls_lem op fence_waits type crossover sync_size n r s d z dst sst es nelems slot {m} {f} job
      legal apart program runs calls ran p0 mp done k j e y kz jz lt ly =
    let some_elements : 0 < nelems = omega (arith, lt) in
    delivered
      (alltoalls-Exchanges op type crossover sync_size n r s d z dst sst es nelems slot job legal
        program runs calls some_elements)
      (s + d * k) ((k * nelems + e) * (dst * es)) ((j * nelems + e) * (sst * es)) es (s + d * j) y
      (index_member s d z job.positive k kz)
      ((all_puts_iff dst sst es nelems s d z job.positive k
          (element dst sst es nelems s d z job.positive k j e) kz).1
        (j, e, jz, lt, refl))
      ly
      (λ q o f l member mem.
        only_element dst sst es nelems s d z job.positive apart k j e y q o f l kz jz lt ly member
          mem)
      ran p0 mp done

-- However the calls of `shmem_internal_alltoalls` of the PEs of the set are interleaved, when there is something to move:
-- while a PE of the set has not returned, some PE can go on, and no PE runs more instructions than its
-- call has. The set has two PEs or more, the barrier is not the dissemination barrier, the radix is 2 or
-- more, and the counters are 0.
pub alltoalls-ends :
    {A : Type 0} (op : A → A → A) (type : CollType)
    (crossover sync_size n r s d z dst sst es nelems slot : ℕ) {m m' : Machine A}
    → InJob n r s d z
    → type ≢ dissem
    → 0 < nelems
    → (program : ℕ → List Instr)
    → ((p : ℕ)
        → alltoalls type crossover sync_size (tree_node n r s d z p) dst sst es nelems s d z slot p
          ≡ some (program p))
    → Calls (in_set s d z) slot program m
    → (ran : Runs op m m')
    → ((p : ℕ)
        → in_set s d z p ≡ true
        → m'.prog p ≢ []
        → (q : ℕ) × (m'' : Machine A) × (step op q m' ≡ some m''))
      × ((p : ℕ) → taken p ran ≤ length (m.prog p))
alltoalls-ends op type crossover sync_size n r s d z dst sst es nelems slot job legal some_len
      program runs calls ran =
    ends
      (alltoalls-Exchanges op type crossover sync_size n r s d z dst sst es nelems slot job legal
        program runs calls some_len)
      ran
