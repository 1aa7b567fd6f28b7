-- ===== src/Lock/Order.antt =====
-- The lock of src/shmem_lock.h hands itself out in the order of a queue.
use sandia_shmem.Base.{ℕ, ◌<◌, ◌≡◌, refl, sym, ap, ◌∙◌, List, [], ◌∷◌}
use sandia_shmem.Lock.{
  Lock, Place, idle, held, set_zero, test_zero, clear_cswap, go, signal_bit, Step, sets, tests,
  clears, in_set, in_test, in_clear, Reaches, start, later, unlocked,
}
use sandia_shmem.Lock.Queue.{IsOutside, Queued}
use sandia_shmem.Lock.Steps.{stay_head}
use sandia_shmem.Lock.Spots.{Spot, out, first, behind, Spot-of}
use sandia_shmem.Lock.Changes.{After, kept, go-After}
use sandia_shmem.Lock.SetLock.{set-After, test-After}
use sandia_shmem.Lock.ClearLock.{clear-After}

abbrev head_or : ℕ → List ℕ → ℕ
head_or d [] = d
head_or d (a ∷ bs) = a

enters-After :
    {n : ℕ} (s : Lock) (me : ℕ) (x : Place) (q : List ℕ)
    → Queued n s q
    → Spot s me idle q
    → IsOutside x (s.data_of me)
    → After n me q (go s me x)
enters-After s me x q l (out m _) after = kept (go-After me s q x l m after)
enters-After s me x _ l (first head) after = absurd head
enters-After s me x _ l (behind m is _) after = absurd is

clears-After :
    {n : ℕ} (s : Lock) (me : ℕ) (q : List ℕ)
    → Queued n s q
    → Spot s me held q
    → After n me q (go s me clear_cswap)
clears-After s me q l (out m never) = absurd never
clears-After s me _ l (first {bs = bs} head) = kept (stay_head me s clear_cswap bs l tt)
clears-After s me _ l (behind m is _) = absurd is

-- In a machine of fewer than 2 ^ 31 PEs, each step of a PE on a lock with a queue leaves the queue as it is, adds the PE
-- at its end, or takes the PE from its head.
pub step-After :
    {n : ℕ} (s : Lock) (me : ℕ) (t : Lock) (q : List ℕ)
    → n < signal_bit
    → me < n
    → Queued n s q
    → Step s me t
    → After n me q t
step-After s me t q small inside l (in_set _ _ e) =
    set-After small me inside s (s.place me) q t l refl (Spot-of s me q l refl) e
step-After s me t q small inside l (in_test _ _ e) =
    test-After small me inside s (s.place me) q t l refl (Spot-of s me q l refl) e
step-After s me t q small inside l (in_clear _ _ e) =
    clear-After me s (s.place me) q t l refl (Spot-of s me q l refl) e
step-After s me _ q small inside l (sets _ at) =
    enters-After s me set_zero q l (Spot-of s me q l at) tt
step-After s me _ q small inside l (tests _ at) =
    enters-After s me test_zero q l (Spot-of s me q l at) tt
step-After s me _ q small inside l (clears _ at) = clears-After s me q l (Spot-of s me q l at)

unlocked-Queued : (n : ℕ) → Queued n unlocked []
unlocked-Queued n = record {
  line = refl;
  distinct = tt;
  inside = λ p m. absurd m;
  others = λ p m. tt;
}

-- In a machine of fewer than 2 ^ 31 PEs, the lock has a queue in every state that it comes to.
pub Reaches-Queued :
    {n : ℕ} (s : Lock) → n < signal_bit → Reaches n unlocked s → (q : List ℕ) × Queued n s q
Reaches-Queued {n} _ small start = ([], unlocked-Queued n)
Reaches-Queued s small (later {s' = s'} me inside before step) =
    let (q, l) = Reaches-Queued s' small before in
    let after = step-After s' me s q small inside l step in (after.line, after.queued)

first_of : (s : Lock) (p : ℕ) (q : List ℕ) → Spot s p held q → (bs : List ℕ) × (q ≡ (p ∷ bs))
first_of s p q (out m never) = absurd never
first_of s p _ (first {bs = bs} head) = (bs, refl)
first_of s p _ (behind m is _) = absurd is

holder_first :
    {n : ℕ} (s : Lock) (p : ℕ) (q : List ℕ)
    → Queued n s q
    → s.place p ≡ held
    → (bs : List ℕ) × (q ≡ (p ∷ bs))
holder_first s p q l at = first_of s p q (Spot-of s p q l at)

-- In a machine of fewer than 2 ^ 31 PEs, however the operations of their calls interleave, two PEs that hold the
-- lock are the same PE.
pub held-exclusive :
    {n : ℕ} (s : Lock) (p r : ℕ)
    → n < signal_bit
    → Reaches n unlocked s
    → s.place p ≡ held
    → s.place r ≡ held
    → p ≡ r
held-exclusive s p r small reach at_p at_r =
    let (q, l) = Reaches-Queued s small reach in
    let (bs, e) = holder_first s p q l at_p in
    let (cs, f) = holder_first s r q l at_r in ap (head_or 0) (sym e ∙ f)
