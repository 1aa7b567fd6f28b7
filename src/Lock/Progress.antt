-- ===== src/Lock/Progress.antt =====
-- No wait in the lock of src/shmem_lock.h is for ever.
use sandia_shmem.Base.{
  ℕ, ◌+◌, ◌<◌, ◌≡◌, ◌≢◌, refl, ap, ◌∙◌, ◌⊎◌, inl, inr, List, [], ◌∷◌, arith, some, ◌==◌,
  if◌then◌else◌, Bool, Bool-cases, ==_iff, false,
}
use sandia_shmem.Lock.{
  Lock, Place, idle, held, set_zero, set_swap, read_signal, test_zero, test_cswap, clear_cswap,
  read_next, link, wait_signal, wait_next, give, next, signal, go, signal_bit, set_lock, test_lock,
  clear_lock, Reaches, unlocked,
}
use sandia_shmem.Lock.Queue.{IsNonempty, IsHead, IsOutside, Linked, Queued}
use sandia_shmem.Lock.Order.{Reaches-Queued}
use sandia_shmem.Lock.Spots.{Spot, out, first, behind, Spot-of}

-- The PE does an operation of the call that it is in.
abbrev pub Works : Lock → ℕ → Type 0
Works s r =
    (t : Lock) × ((set_lock r (s.place r) s ≡ some t)
      ⊎ ((test_lock r (s.place r) s ≡ some t) ⊎ (clear_lock r (s.place r) s ≡ some t)))

-- An operation that goes on either way.
either : (b : Bool) (x y : Lock) → (t : Lock) × ((if b then some x else some y) ≡ some t)
either b x y = elim (Bool-cases b) [ inl e ↦ (x, rw e refl) | inr e ↦ (y, rw e refl) ]

abbrev Held : Lock → Type 0
Held s = ((r : ℕ) × (s.place r ≡ held)) ⊎ ((r : ℕ) × Works s r)

set_works :
    (s : Lock) (r : ℕ) (x : Place)
    → s.place r ≡ x
    → ((t : Lock) × (set_lock r x s ≡ some t))
    → Held s
set_works s r x at (t, e) = inr (r, (t, inl (ap (λ y. set_lock r y s) at ∙ e)))

test_works :
    (s : Lock) (r : ℕ) (x : Place)
    → s.place r ≡ x
    → ((t : Lock) × (test_lock r x s ≡ some t))
    → Held s
test_works s r x at (t, e) = inr (r, (t, inr (inl (ap (λ y. test_lock r y s) at ∙ e))))

clear_works :
    (s : Lock) (r : ℕ) (x : Place)
    → s.place r ≡ x
    → ((t : Lock) × (clear_lock r x s ≡ some t))
    → Held s
clear_works s r x at (t, e) = inr (r, (t, inr (inr (ap (λ y. clear_lock r y s) at ∙ e))))

-- The link that the head waits for is the next operation of the PE behind it.
linking :
    (s : Lock) (a : ℕ) (bs : List ℕ)
    → IsNonempty bs
    → next (s.data_of a) ≡ 0
    → Linked s a bs
    → Held s
unfolding Linked set_lock
linking s a [] more none_yet l = absurd more
linking s a (b ∷ bs) more none_yet ((off, inl (at, _)), l) =
    set_works s b (link (a + 1)) at (_, refl)
linking s a (b ∷ bs) more none_yet ((off, inr (_, made)), l) =
    absurd (omega (arith, none_yet, made))

head_works :
    (s : Lock) (a : ℕ) (bs : List ℕ) (x : Place)
    → s.place a ≡ x
    → IsHead x (s.data_of a) bs
    → Linked s a bs
    → Held s
unfolding set_lock clear_lock
head_works s a bs held at head l = inl (a, at)
head_works s a bs clear_cswap at head l = clear_works s a clear_cswap at (either _ _ _)
head_works s a bs read_next at head l = clear_works s a read_next at (either _ _ _)
head_works s a bs (wait_next old) at (more, none_old) l = elim (Bool-cases (s.data_of a == old)) [
  | inl same ↦ linking s a bs more (ap next ((==_iff (s.data_of a) old).0 same) ∙ none_old) l
  | inr other ↦ clear_works s a (wait_next old) at (go s a read_next, rw other refl)
]
head_works s a bs (give to) at head l = clear_works s a (give to) at (_, refl)
head_works s a bs read_signal at head l = set_works s a read_signal at (either _ _ _)
head_works s a bs (wait_signal old) at (on, off) l =
    let other : (s.data_of a == old) ≡ false = elim (Bool-cases (s.data_of a == old)) [
      | inl same ↦ absurd (omega (arith, on, off, ap signal ((==_iff (s.data_of a) old).0 same)))
      | inr ne ↦ ne
    ] in
    set_works s a (wait_signal old) at (go s a read_signal, rw other refl)
head_works s a bs idle at head l = absurd head
head_works s a bs set_zero at head l = absurd head
head_works s a bs set_swap at head l = absurd head
head_works s a bs test_zero at head l = absurd head
head_works s a bs test_cswap at head l = absurd head
head_works s a bs (link _) at head l = absurd head

outside_works :
    (s : Lock) (p : ℕ) (x : Place) → s.place p ≡ x → IsOutside x (s.data_of p) → x ≢ idle → Held s
unfolding set_lock test_lock
outside_works s p idle at is busy = absurd (busy refl)
outside_works s p set_zero at is busy = set_works s p set_zero at (_, refl)
outside_works s p set_swap at is busy = set_works s p set_swap at (either _ _ _)
outside_works s p test_zero at is busy = test_works s p test_zero at (_, refl)
outside_works s p test_cswap at is busy = test_works s p test_cswap at (either _ _ _)
outside_works s p held at is busy = absurd is
outside_works s p read_signal at is busy = absurd is
outside_works s p clear_cswap at is busy = absurd is
outside_works s p read_next at is busy = absurd is
outside_works s p (link _) at is busy = absurd is
outside_works s p (wait_signal _) at is busy = absurd is
outside_works s p (wait_next _) at is busy = absurd is
outside_works s p (give _) at is busy = absurd is

line_works :
    {n : ℕ} (s : Lock) (p : ℕ) (q : List ℕ)
    → Queued n s q
    → Spot s p (s.place p) q
    → s.place p ≢ idle
    → Held s
line_works s p q l (out m is) busy = outside_works s p (s.place p) refl is busy
line_works s p _ l (first {bs = bs} head) busy = head_works s p bs (s.place p) refl head l.line.2
line_works s p _ l (behind {a = a} {bs = bs} m is off) busy =
    head_works s a bs (s.place a) refl l.line.1 l.line.2

-- In a machine of fewer than 2 ^ 31 PEs, in every state that the lock comes to: where a PE is in a call or holds the lock,
-- some PE holds it, or some PE can do the next operation of its call.
pub lock-progress :
    {n : ℕ} (s : Lock) (p : ℕ)
    → n < signal_bit
    → Reaches n unlocked s
    → s.place p ≢ idle
    → ((r : ℕ) × (s.place r ≡ held)) ⊎ ((r : ℕ) × Works s r)
lock-progress s p small reach busy =
    let (q, l) = Reaches-Queued s small reach in line_works s p q l (Spot-of s p q l refl) busy
