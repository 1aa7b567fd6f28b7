-- ===== src/Lock.antt =====
-- The distributed lock of src/shmem_lock.h, a queue of PEs linked through the words of the lock. A PE is at one
-- operation on these words at a time; the operations of all PEs interleave. That each is atomic and
-- complete before the next one of its PE is what `shmem_internal_get_wait` and `shmem_internal_quiet` are for.
-- Fences order the program's own data, which is not here.
pub mod Words
pub mod Queue
pub mod Links
pub mod Steps
pub mod Joins
pub mod Leaves
pub mod Spots
pub mod Changes
pub mod SetLock
pub mod ClearLock
pub mod Order
pub mod Progress
pub mod Tests
use sandia_shmem.Base.{
  ℕ, ◌+◌, ◌-◌, ◌*◌, ◌/◌, ◌%◌, ◌<◌, ◌≡◌, Bool, Option, none, some, ◌==◌, if◌then◌else◌,
}
use sandia_shmem.Comm.{update}

-- The bit of SIGNAL_MASK. NEXT_MASK is that of the bits below it.
abbrev pub signal_bit : ℕ
signal_bit = 2147483648

-- NEXT(A)
abbrev pub next : ℕ → ℕ
next word = word % signal_bit

-- SIGNAL(A), as 0 or 1
abbrev pub signal : ℕ → ℕ
signal word = word / signal_bit

-- `shmem_internal_mswap` with NEXT_MASK as its mask: the word after.
abbrev pub swap_next : ℕ → ℕ → ℕ
swap_next word value = signal word * signal_bit + next value

-- `shmem_internal_mswap` with SIGNAL_MASK as its mask and its value.
abbrev pub swap_signal : ℕ → ℕ
swap_signal word = signal_bit + next word

-- Where a PE is: `idle` without the lock, `held` with it, and otherwise before an operation.
-- In `shmem_internal_set_lock`: `set_zero`, `set_swap`, `link curr`, `read_signal` and `wait_signal cur_data`;
-- in `shmem_internal_test_lock`: `test_zero` and `test_cswap`; in `shmem_internal_clear_lock`: `clear_cswap`,
-- `read_next`, `wait_next cur_data` and `give next`, where `next` is NEXT(cur_data).
pub data Place : Type 0 where
  idle held set_zero set_swap read_signal test_zero test_cswap clear_cswap read_next : Place
  link wait_signal wait_next give : ℕ → Place

-- `last` is the field on PE 0, `data` the fields of all PEs.
pub record Lock : Type 0 where
  pub last : ℕ
  pub data_of : ℕ → ℕ
  pub place : ℕ → Place

abbrev pub go : Lock → ℕ → Place → Lock
go s me at = record s { place = update s.place me at }

abbrev pub write : Lock → ℕ → ℕ → Lock
write s pe word = record s { data_of = update s.data_of pe word }

-- One operation of `shmem_internal_set_lock`; SHMEM_WAIT does not step while the word is what was read.
unfoldable pub set_lock : ℕ → Place → Lock → Option Lock
set_lock me set_zero s = some (go (write s me 0) me set_swap)
set_lock me set_swap s =
    let s' = record s { last = me + 1 } in
    if s.last == 0 then some (go s' me held) else some (go s' me (link s.last))
set_lock me (link curr) s =
    some (go (write s (curr - 1) (swap_next (s.data_of (curr - 1)) (me + 1))) me read_signal)
set_lock me read_signal s =
    let cur_data = s.data_of me in
    if signal cur_data == 0 then some (go s me (wait_signal cur_data)) else some (go s me held)
set_lock me (wait_signal cur_data) s =
    if s.data_of me == cur_data then none else some (go s me read_signal)
set_lock me _ s = none

-- One operation of `shmem_internal_test_lock`. It returns 0 with the lock, 1 without.
unfoldable pub test_lock : ℕ → Place → Lock → Option Lock
test_lock me test_zero s = some (go (write s me 0) me test_cswap)
test_lock me test_cswap s =
    if s.last == 0 then some (go (record s { last = me + 1 }) me held) else some (go s me idle)
test_lock me _ s = none

-- One operation of `shmem_internal_clear_lock`.
unfoldable pub clear_lock : ℕ → Place → Lock → Option Lock
clear_lock me clear_cswap s =
    if s.last == me + 1 then some (go (record s { last = 0 }) me idle) else some (go s me read_next)
clear_lock me read_next s =
    let cur_data = s.data_of me in
    if next cur_data == 0
    then some (go s me (wait_next cur_data))
    else some (go s me (give (next cur_data)))
clear_lock me (wait_next cur_data) s =
    if s.data_of me == cur_data then none else some (go s me read_next)
clear_lock me (give to) s = some (go (write s (to - 1) (swap_signal (s.data_of (to - 1)))) me idle)
clear_lock me _ s = none

-- A step of the machine: a PE starts a call, where it may, or does an operation of the call that it is in.
pub data Step (s : Lock) : ℕ → Lock → Type 0 where
  sets : (me : ℕ) → s.place me ≡ idle → Step s me (go s me set_zero)
  tests : (me : ℕ) → s.place me ≡ idle → Step s me (go s me test_zero)
  clears : (me : ℕ) → s.place me ≡ held → Step s me (go s me clear_cswap)
  in_set : (me : ℕ) (s' : Lock) → set_lock me (s.place me) s ≡ some s' → Step s me s'
  in_test : (me : ℕ) (s' : Lock) → test_lock me (s.place me) s ≡ some s' → Step s me s'
  in_clear : (me : ℕ) (s' : Lock) → clear_lock me (s.place me) s ≡ some s' → Step s me s'

-- Zero or more steps of PEs below `n`.
pub data Reaches (n : ℕ) (s : Lock) : Lock → Type 0 where
  start : Reaches n s s
  later : {s' s'' : Lock} (me : ℕ) → me < n → Reaches n s s' → Step s' me s'' → Reaches n s s''

-- The lock before any call.
abbrev pub unlocked : Lock
unlocked = record { last = 0; data_of = λ pe. 0; place = λ pe. idle }
