-- ===== src/Lock/Words.antt =====
-- The two parts of a word of the lock of src/shmem_lock.h.
use sandia_shmem.Base.{ℕ, ◌<◌, ◌≡◌, arith}
use sandia_shmem.Lock.{next, signal, signal_bit, swap_next, swap_signal}

pub next-swap_next : (w v : ℕ) → v < signal_bit → next (swap_next w v) ≡ v
next-swap_next w v l = omega (arith, l)

pub signal-swap_next : (w v : ℕ) → signal (swap_next w v) ≡ signal w
signal-swap_next w v = omega arith

pub next-swap_signal : (w : ℕ) → next (swap_signal w) ≡ next w
next-swap_signal w = omega arith

pub signal-swap_signal : (w : ℕ) → signal (swap_signal w) ≡ 1
signal-swap_signal w = omega arith
