-- ===== src/Lock/SetLock.antt =====
-- What an operation of `shmem_internal_set_lock` and `shmem_internal_test_lock` of src/shmem_lock.h does to the queue.
use mathlib.Core.Path.{subst}
use mathlib.Core.Bool.{false}
use sandia_shmem.Base.{
  ℕ, ◌<◌, ◌≡◌, refl, sym, ◌∙◌, List, [], ◌∷◌, ◌++◌, Elem, arith, some, ◌==◌, none_some,
  some-injective,
}
use sandia_shmem.Lock.{
  Lock, Place, idle, held, set_zero, set_swap, read_signal, test_zero, test_cswap, clear_cswap,
  read_next, link, wait_signal, wait_next, give, signal, go, signal_bit, set_lock, test_lock,
}
use sandia_shmem.Lock.Queue.{IsWaiting, Queued}
use sandia_shmem.Lock.Steps.{stay_head, stay_wait}
use sandia_shmem.Lock.Joins.{swap_last, join_first, join_last, stay_link}
use sandia_shmem.Lock.Spots.{Spot, out, first, behind}
use sandia_shmem.Lock.Changes.{After, joins, kept, zero-After, go-After, woken}

module _ {n : ℕ} (small : n < signal_bit) (me : ℕ) (inside : me < n) (s : Lock) where
  swap-After :
      (q : List ℕ) (t : Lock)
      → Queued n s q
      → ¬ Elem me q
      → s.data_of me ≡ 0
      → set_lock me set_swap s ≡ some t
      → After n me q t
  unfolding set_lock
  swap-After [] t l m word e =
      let free : set_lock me set_swap s ≡ some (swap_last me s held) = rw l.line refl in
      subst (After n me []) (some-injective (sym free ∙ e))
        (record { line = me ∷ []; queued = join_first me s l inside word; change = joins })
  swap-After (a ∷ bs) t l m word e =
      let taken : (s.last == 0) ≡ false = ground (arith, l.line.0) in
      let runs : set_lock me set_swap s ≡ some (swap_last me s (link s.last)) = rw taken refl in
      subst (After n me (a ∷ bs)) (some-injective (sym runs ∙ e)) (record {
        line = (a ∷ bs) ++ (me ∷ []);
        queued = join_last me s a bs l m inside word;
        change = joins;
      })

  cswap-After :
      (q : List ℕ) (t : Lock)
      → Queued n s q
      → ¬ Elem me q
      → s.data_of me ≡ 0
      → test_lock me test_cswap s ≡ some t
      → After n me q t
  unfolding test_lock
  cswap-After [] t l m word e =
      let free : test_lock me test_cswap s ≡ some (swap_last me s held) = rw l.line refl in
      subst (After n me []) (some-injective (sym free ∙ e))
        (record { line = me ∷ []; queued = join_first me s l inside word; change = joins })
  cswap-After (a ∷ bs) t l m word e =
      let taken : (s.last == 0) ≡ false = ground (arith, l.line.0) in
      let runs : test_lock me test_cswap s ≡ some (go s me idle) = rw taken refl in
      subst (After n me (a ∷ bs)) (some-injective (sym runs ∙ e))
        (kept (go-After me s (a ∷ bs) idle l m tt))

  read_signal-After :
      (t : Lock) (a : ℕ) (bs : List ℕ)
      → Queued n s (a ∷ bs)
      → Elem me bs
      → s.place me ≡ read_signal
      → signal (s.data_of me) ≡ 0
      → set_lock me read_signal s ≡ some t
      → After n me (a ∷ bs) t
  unfolding set_lock
  read_signal-After t a bs l m at off e =
      let runs : set_lock me read_signal s ≡ some (go s me (wait_signal (s.data_of me))) =
        rw off refl in
      subst (After n me (a ∷ bs)) (some-injective (sym runs ∙ e)) (
        kept
          (stay_wait me s (wait_signal (s.data_of me)) a bs l m (subst IsWaiting (sym at) tt) off))

  got_signal-After :
      (t : Lock) (bs : List ℕ)
      → Queued n s (me ∷ bs)
      → signal (s.data_of me) ≡ 1
      → set_lock me read_signal s ≡ some t
      → After n me (me ∷ bs) t
  unfolding set_lock
  got_signal-After t bs l on e =
      let runs : set_lock me read_signal s ≡ some (go s me held) = rw on refl in
      subst (After n me (me ∷ bs)) (some-injective (sym runs ∙ e))
        (kept (stay_head me s held bs l tt))

  pub set-After :
      (x : Place) (q : List ℕ) (t : Lock)
      → Queued n s q
      → s.place me ≡ x
      → Spot s me x q
      → set_lock me x s ≡ some t
      → After n me q t
  unfolding set_lock
  set-After idle q t l at spot e = none_some refl e
  set-After held q t l at spot e = none_some refl e
  set-After set_zero q t l at (out m word) e =
      subst (After n me q) (some-injective e) (kept (zero-After me s q set_swap l m refl))
  set-After set_zero _ t l at (first {bs = bs} head) e = absurd head
  set-After set_zero _ t l at (behind {a = a} {bs = bs} m is off) e = absurd is
  set-After set_swap q t l at (out m word) e = swap-After q t l m word e
  set-After set_swap _ t l at (first {bs = bs} head) e = absurd head
  set-After set_swap _ t l at (behind {a = a} {bs = bs} m is off) e = absurd is
  set-After read_signal q t l at (out m word) e = absurd word
  set-After read_signal _ t l at (first {bs = bs} head) e = got_signal-After t bs l head e
  set-After read_signal _ t l at (behind {a = a} {bs = bs} m is off) e =
      read_signal-After t a bs l m at off e
  set-After test_zero q t l at spot e = none_some refl e
  set-After test_cswap q t l at spot e = none_some refl e
  set-After clear_cswap q t l at spot e = none_some refl e
  set-After read_next q t l at spot e = none_some refl e
  set-After (link curr) q t l at (out m word) e = absurd word
  set-After (link curr) _ t l at (first {bs = bs} head) e = absurd head
  set-After (link curr) _ t l at (behind {a = a} {bs = bs} m is off) e =
      subst (After n me (a ∷ bs)) (some-injective e) (kept (stay_link me curr s a bs small l m at))
  set-After (wait_signal old) q t l at (out m word) e = absurd word
  set-After (wait_signal old) _ t l at (first {bs = bs} head) e =
      woken me s read_signal old (me ∷ bs) t e (stay_head me s read_signal bs l head.0)
  set-After (wait_signal old) _ t l at (behind {a = a} {bs = bs} m is off) e =
      woken me s read_signal old (a ∷ bs) t e
        (stay_wait me s read_signal a bs l m (subst IsWaiting (sym at) is) tt)
  set-After (wait_next old) q t l at spot e = none_some refl e
  set-After (give to) q t l at spot e = none_some refl e

  pub test-After :
      (x : Place) (q : List ℕ) (t : Lock)
      → Queued n s q
      → s.place me ≡ x
      → Spot s me x q
      → test_lock me x s ≡ some t
      → After n me q t
  unfolding test_lock
  test-After idle q t l at spot e = none_some refl e
  test-After held q t l at spot e = none_some refl e
  test-After set_zero q t l at spot e = none_some refl e
  test-After set_swap q t l at spot e = none_some refl e
  test-After read_signal q t l at spot e = none_some refl e
  test-After test_zero q t l at (out m word) e =
      subst (After n me q) (some-injective e) (kept (zero-After me s q test_cswap l m refl))
  test-After test_zero _ t l at (first {bs = bs} head) e = absurd head
  test-After test_zero _ t l at (behind {a = a} {bs = bs} m is off) e = absurd is
  test-After test_cswap q t l at (out m word) e = cswap-After q t l m word e
  test-After test_cswap _ t l at (first {bs = bs} head) e = absurd head
  test-After test_cswap _ t l at (behind {a = a} {bs = bs} m is off) e = absurd is
  test-After clear_cswap q t l at spot e = none_some refl e
  test-After read_next q t l at spot e = none_some refl e
  test-After (link curr) q t l at spot e = none_some refl e
  test-After (wait_signal old) q t l at spot e = none_some refl e
  test-After (wait_next old) q t l at spot e = none_some refl e
  test-After (give to) q t l at spot e = none_some refl e
