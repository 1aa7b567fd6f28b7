-- ===== src/Heap.antt =====
-- The symmetric heap, src/symmetric_heap_c.c: `shmem_internal_get_next`, from which the allocator takes
-- memory, and `shmem_internal_symmetric_init`. Addresses are numbers, and `none` is the result
-- (void *) -1 of the first and NULL elsewhere.
pub mod Laws
mod Tests
use sandia_shmem.Base.{ℕ, ◌+◌, List, [], ◌∷◌, Option, none, some, if◌then◌else◌}
use sandia_shmem.Base.Int.{ℤ, pos, ◌+ℤ◌, ◌-ℤ◌, ltb_ℤ, pos_part}

-- The variables `shmem_internal_heap_base`, `_length` and `_curr`.
pub record Heap : Type 0 where
  pub base : ℕ
  pub length : ℕ
  pub curr : ℕ

-- The result of a call, and the heap after it.
pub record Next : Type 0 where
  pub orig : Option ℕ
  pub heap : Heap

unfoldable pub get_next : Heap → ℤ → Next
get_next h incr =
    let curr = pos h.curr +ℤ incr in
    if ltb_ℤ curr (pos h.base)
    then record { orig = some h.curr; heap = record h { curr = h.base } }
    else if ltb_ℤ (pos h.length) (curr -ℤ pos h.base)
    then record { orig = none; heap = h }
    else record { orig = some h.curr; heap = record h { curr = pos_part curr } }

-- The call at start-up: `memory` is what `mmap_alloc` or `malloc` returns. `none` is the result -1.
unfoldable pub symmetric_init : ℕ → ℕ → Option ℕ → Option Heap
symmetric_init symmetric_size overhead none = none
symmetric_init symmetric_size overhead (some memory) =
    some (record { base = memory; length = symmetric_size + overhead; curr = memory })
