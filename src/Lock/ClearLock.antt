-- ===== src/Lock/ClearLock.antt =====
-- What an operation of `shmem_internal_clear_lock` of src/shmem_lock.h does to the queue.
use mathlib.Core.Path.{subst}
use mathlib.Core.Bool.{false}
use sandia_shmem.Base.{
  ℕ, ◌+◌, ◌≡◌, refl, sym, ◌∙◌, inl, inr, List, [], ◌∷◌, arith, some, ◌==◌, Bool-cases, ==_iff,
  none_some, some-injective,
}
use sandia_shmem.Lock.{
  Lock, Place, idle, held, set_zero, set_swap, read_signal, test_zero, test_cswap, clear_cswap,
  read_next, link, wait_signal, wait_next, give, next, go, clear_lock,
}
use sandia_shmem.Lock.Queue.{IsNonempty, last_of, Queued}
use sandia_shmem.Lock.Steps.{stay_head}
use sandia_shmem.Lock.Leaves.{alone, leave_last, leave_give}
use sandia_shmem.Lock.Spots.{Spot, out, first, behind}
use sandia_shmem.Lock.Changes.{After, leaves, kept, woken}

nonempty :
    (me last : ℕ) (bs : List ℕ)
    → last ≡ last_of me bs + 1
    → (last == me + 1) ≡ false
    → IsNonempty bs
nonempty me last [] at other = absurd (ground (arith, at, other))
nonempty me last (b ∷ bs) at other = tt

module _ {n : ℕ} (me : ℕ) (s : Lock) where
  clear_cswap-After :
      (t : Lock) (bs : List ℕ)
      → Queued n s (me ∷ bs)
      → clear_lock me clear_cswap s ≡ some t
      → After n me (me ∷ bs) t
  unfolding clear_lock
  clear_cswap-After t bs l e = elim (Bool-cases (s.last == me + 1)) [
    | inl same ↦
        let at = (==_iff s.last (me + 1)).0 same in
        let only : bs ≡ [] = alone me bs l.distinct (omega (arith, l.line.0, at)) in
        let runs : clear_lock me clear_cswap s ≡ some (go (record s { last = 0 }) me idle) =
          rw same refl in
        subst (After n me (me ∷ bs)) (some-injective (sym runs ∙ e)) (record {
          line = bs;
          queued =
              subst (Queued n (go (record s { last = 0 }) me idle)) (sym only)
                (leave_last me s bs l at);
          change = leaves;
        })
    | inr other ↦
        let more : IsNonempty bs = nonempty me s.last bs l.line.0 other in
        let runs : clear_lock me clear_cswap s ≡ some (go s me read_next) = rw other refl in
        subst (After n me (me ∷ bs)) (some-injective (sym runs ∙ e))
          (kept (stay_head me s read_next bs l more))
  ]

  read_next-After :
      (t : Lock) (bs : List ℕ)
      → Queued n s (me ∷ bs)
      → IsNonempty bs
      → clear_lock me read_next s ≡ some t
      → After n me (me ∷ bs) t
  unfolding clear_lock
  read_next-After t bs l more e = elim (Bool-cases (next (s.data_of me) == 0)) [
    | inl same ↦
        let runs : clear_lock me read_next s ≡ some (go s me (wait_next (s.data_of me))) =
          rw same refl in
        subst (After n me (me ∷ bs)) (some-injective (sym runs ∙ e)) (
          kept (
            stay_head me s (wait_next (s.data_of me)) bs l
              (more, (==_iff (next (s.data_of me)) 0).0 same)))
    | inr other ↦
        let runs : clear_lock me read_next s ≡ some (go s me (give (next (s.data_of me)))) =
          rw other refl in
        subst (After n me (me ∷ bs)) (some-injective (sym runs ∙ e)) (
          kept (
            stay_head me s (give (next (s.data_of me))) bs l
              (refl, λ z. absurd (ground (arith, other, z)))))
  ]

  pub clear-After :
      (x : Place) (q : List ℕ) (t : Lock)
      → Queued n s q
      → s.place me ≡ x
      → Spot s me x q
      → clear_lock me x s ≡ some t
      → After n me q t
  unfolding clear_lock
  clear-After idle q t l at spot e = none_some refl e
  clear-After held q t l at spot e = none_some refl e
  clear-After set_zero q t l at spot e = none_some refl e
  clear-After set_swap q t l at spot e = none_some refl e
  clear-After read_signal q t l at spot e = none_some refl e
  clear-After test_zero q t l at spot e = none_some refl e
  clear-After test_cswap q t l at spot e = none_some refl e
  clear-After clear_cswap q t l at (out m word) e = absurd word
  clear-After clear_cswap _ t l at (first {bs = bs} head) e = clear_cswap-After t bs l e
  clear-After clear_cswap _ t l at (behind {a = a} {bs = bs} m is off) e = absurd is
  clear-After read_next q t l at (out m word) e = absurd word
  clear-After read_next _ t l at (first {bs = bs} head) e = read_next-After t bs l head e
  clear-After read_next _ t l at (behind {a = a} {bs = bs} m is off) e = absurd is
  clear-After (link curr) q t l at spot e = none_some refl e
  clear-After (wait_signal old) q t l at spot e = none_some refl e
  clear-After (wait_next old) q t l at (out m word) e = absurd word
  clear-After (wait_next old) _ t l at (first {bs = bs} head) e =
      woken me s read_next old (me ∷ bs) t e (stay_head me s read_next bs l head.0)
  clear-After (wait_next old) _ t l at (behind {a = a} {bs = bs} m is off) e = absurd is
  clear-After (give to) q t l at (out m word) e = absurd word
  clear-After (give to) _ t l at (first {bs = bs} head) e =
      subst (After n me (me ∷ bs)) (some-injective e)
        (record { line = bs; queued = leave_give me to s bs l at; change = leaves })
  clear-After (give to) _ t l at (behind {a = a} {bs = bs} m is off) e = absurd is
