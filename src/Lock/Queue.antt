-- ===== src/Lock/Queue.antt =====
-- The queue that the words of the lock of src/shmem_lock.h make up.
use sandia_shmem.Base.{ℕ, ◌+◌, ◌<◌, ◌≡◌, ◌≢◌, ◌⊎◌, List, [], ◌∷◌, Elem, IsDistinct}
use sandia_shmem.Lock.{
  Lock, Place, idle, held, set_zero, set_swap, read_signal, test_zero, test_cswap, clear_cswap,
  read_next, link, wait_signal, wait_next, give, next, signal,
}

-- Before the signal, with the link made.
abbrev pub IsWaiting : Place → Type 0
IsWaiting read_signal = Unit
IsWaiting (wait_signal word) = signal word ≡ 0
IsWaiting _ = ⊥

-- A PE `b` next in line after `a`: its link is to be made, or is made.
abbrev pub Edge : Lock → ℕ → ℕ → Type 0
Edge s a b =
    (signal (s.data_of b) ≡ 0)
    × (((s.place b ≡ link (a + 1)) × (next (s.data_of a) ≡ 0))
        ⊎ (IsWaiting (s.place b) × (next (s.data_of a) ≡ b + 1)))

-- The PEs in line after `a`.
unfoldable pub Linked : Lock → ℕ → List ℕ → Type 0
Linked s a [] = next (s.data_of a) ≡ 0
Linked s a (b ∷ bs) = Edge s a b × Linked s b bs

abbrev pub IsNonempty : List ℕ → Type 0
IsNonempty [] = ⊥
IsNonempty (b ∷ bs) = Unit

-- The place and the word of the PE at the head, with `bs` in line after it.
abbrev pub IsHead : Place → ℕ → List ℕ → Type 0
IsHead held word bs = Unit
IsHead clear_cswap word bs = Unit
IsHead read_next word bs = IsNonempty bs
IsHead (wait_next old) word bs = IsNonempty bs × (next old ≡ 0)
IsHead (give to) word bs = (to ≡ next word) × (to ≢ 0)
IsHead read_signal word bs = signal word ≡ 1
IsHead (wait_signal old) word bs = (signal word ≡ 1) × (signal old ≡ 0)
IsHead _ word bs = ⊥

-- The place and the word of a PE that is not in line.
abbrev pub IsOutside : Place → ℕ → Type 0
IsOutside idle word = Unit
IsOutside set_zero word = Unit
IsOutside test_zero word = Unit
IsOutside set_swap word = word ≡ 0
IsOutside test_cswap word = word ≡ 0
IsOutside _ word = ⊥

abbrev pub last_of : ℕ → List ℕ → ℕ
last_of a [] = a
last_of a (b ∷ bs) = last_of b bs

abbrev pub Line : Lock → List ℕ → Type 0
Line s [] = s.last ≡ 0
Line s (a ∷ bs) = (s.last ≡ last_of a bs + 1) × IsHead (s.place a) (s.data_of a) bs × Linked s a bs

-- The PEs of this queue, and no others, are in line for the lock.
pub record Queued (n : ℕ) (s : Lock) (q : List ℕ) : Type 0 where
  pub line : Line s q
  pub distinct : IsDistinct q
  pub inside : (p : ℕ) → Elem p q → p < n
  pub others : (p : ℕ) → ¬ Elem p q → IsOutside (s.place p) (s.data_of p)
