-- ===== src/Lock/Spots.antt =====
-- Where in the queue of the lock of src/shmem_lock.h a PE at a place of its code is.
use mathlib.Core.Path.{subst}
use sandia_shmem.Base.{ℕ, ◌≡◌, sym, inl, inr, List, [], ◌∷◌, Elem, ℕ_discrete, ◌⊎◌}
use sandia_shmem.Lock.{
  Lock, Place, idle, held, set_zero, set_swap, read_signal, test_zero, test_cswap, clear_cswap,
  read_next, link, wait_signal, wait_next, give, signal,
}
use sandia_shmem.Lock.Queue.{IsWaiting, IsHead, IsOutside, Linked, Queued}

-- The place of a PE in line behind the head.
abbrev pub IsBehind : Place → Type 0
IsBehind (link curr) = Unit
IsBehind read_signal = Unit
IsBehind (wait_signal word) = signal word ≡ 0
IsBehind _ = ⊥

-- A PE out of line, at its head, or behind the head.
pub data Spot (s : Lock) (me : ℕ) (x : Place) : List ℕ → Type 0 where
  out : {q : List ℕ} → ¬ Elem me q → IsOutside x (s.data_of me) → Spot s me x q
  first : {bs : List ℕ} → IsHead x (s.data_of me) bs → Spot s me x (me ∷ bs)
  behind :
      {a : ℕ} {bs : List ℕ}
      → Elem me bs
      → IsBehind x
      → signal (s.data_of me) ≡ 0
      → Spot s me x (a ∷ bs)

waiting-IsBehind : (x : Place) → IsWaiting x → IsBehind x
waiting-IsBehind read_signal w = tt
waiting-IsBehind (wait_signal word) w = w
waiting-IsBehind idle w = absurd w
waiting-IsBehind held w = absurd w
waiting-IsBehind set_zero w = absurd w
waiting-IsBehind set_swap w = absurd w
waiting-IsBehind test_zero w = absurd w
waiting-IsBehind test_cswap w = absurd w
waiting-IsBehind clear_cswap w = absurd w
waiting-IsBehind read_next w = absurd w
waiting-IsBehind (link _) w = tt
waiting-IsBehind (wait_next _) w = absurd w
waiting-IsBehind (give _) w = absurd w

-- Each PE in line is at its head or behind it.
in_line :
    (s : Lock) (a me : ℕ) (bs : List ℕ)
    → Linked s a bs
    → Elem me bs
    → (signal (s.data_of me) ≡ 0) × IsBehind (s.place me)
unfolding Linked
in_line s a me [] l m = absurd m
in_line s a me (b ∷ bs) ((off, edge), l) (inr m) = in_line s b me bs l m
in_line s a me (b ∷ bs) ((off, edge), l) (inl e) =
    subst (λ x. (signal (s.data_of x) ≡ 0) × IsBehind (s.place x)) (sym e)
      (
        off,
        elim edge [
          | inl (at, _) ↦ subst IsBehind (sym at) tt
          | inr (waits, _) ↦ waiting-IsBehind (s.place b) waits
        ],
      )

decide_Elem : (me : ℕ) (q : List ℕ) → Elem me q ⊎ (¬ Elem me q)
decide_Elem me [] = inr (λ m. m)
decide_Elem me (a ∷ bs) = elim (ℕ_discrete me a) [
  | yes e ↦ inl (inl e)
  | no other ↦ elim (decide_Elem me bs) [
    | inl m ↦ inl (inr m)
    | inr m ↦ inr (λ m'. elim m' [ inl e ↦ other e | inr m'' ↦ m m'' ])
  ]
]

Spot-in :
    {n : ℕ} (s : Lock) (me : ℕ) (q : List ℕ) → Queued n s q → Elem me q → Spot s me (s.place me) q
Spot-in s me [] l m = absurd m
Spot-in s me (a ∷ bs) l (inl e) =
    subst (λ x. Spot s me (s.place me) (x ∷ bs)) e
      (first (subst (λ x. IsHead (s.place x) (s.data_of x) bs) (sym e) l.line.1))
Spot-in s me (a ∷ bs) l (inr m) = let (off, is) = in_line s a me bs l.line.2 m in behind m is off

pub Spot-of :
    {n : ℕ} (s : Lock) (me : ℕ) (q : List ℕ) {x : Place}
    → Queued n s q
    → s.place me ≡ x
    → Spot s me x q
Spot-of s me q l at =
    subst (λ y. Spot s me y q) at
      (elim (decide_Elem me q) [ inl m ↦ Spot-in s me q l m | inr m ↦ out m (l.others me m) ])
