-- ===== src/FreeList.antt =====
-- The free lists of src/shmem_free_list.h and src/shmem_free_list.c, with the memory that holds the links of the
-- items. An item is its address, and `none` is NULL. What `malloc` answers is an argument; the
-- function that initializes an item, and the mutex, are left out.
pub mod Laws
mod Tests
use sandia_shmem.Base.{
  ℕ, zero, suc, ◌+◌, ◌-◌, ◌^◌, ◌%◌, List, [], ◌∷◌, Option, none, some, ◌==◌, if◌then◌else◌, Bool,
}

-- `shmem_free_list_t`, and `next` of the item at each address. `allocs` lists the buffers from the last.
pub record FreeList : Type 0 where
  pub element_size : ℕ
  pub nalloc : ℕ
  pub allocs : List ℕ
  pub head : Option ℕ
  pub next : ℕ → Option ℕ

-- item->next = link
abbrev pub store : (ℕ → Option ℕ) → ℕ → Option ℕ → ℕ → Option ℕ
store next item link a = if item == a then link else next a

-- sizeof(shmem_free_list_alloc_t)
abbrev pub header_size : ℕ
header_size = 8

abbrev pub num_elements : ℕ
num_elements = 2

-- The loop over the items of a new buffer from `item` on, `left` of them after it; the links, and `last`.
unfoldable pub link_items : ℕ → ℕ → ℕ → (ℕ → Option ℕ) → (ℕ → Option ℕ) × ℕ
link_items size zero item next = (store next item none, item)
link_items size (suc left) item next =
    link_items size left (item + size) (store next item (some (item + size)))

-- `none` is the return value 1.
unfoldable pub more : Option ℕ → FreeList → Option FreeList
unfolding link_items
more none fl = none
more (some buf) fl =
    let first = buf + header_size in
    let (next, last) = link_items fl.element_size (num_elements - 1) first fl.next in
    some (record fl { next = store next last fl.head; allocs = buf ∷ fl.allocs; head = some first })

-- `shmem_free_list_alloc` from a list with the head `item`
abbrev pub take_head : FreeList → ℕ → Option ℕ × FreeList
take_head fl item =
    (some item, record fl { head = fl.next item; nalloc = (fl.nalloc + 1) % 2 ^ 64 })

abbrev pub from_head : FreeList → Option ℕ → Option ℕ × FreeList
from_head fl none = (none, fl)
from_head fl (some item) = take_head fl item

unfoldable pub alloc : Option ℕ → FreeList → Option ℕ × FreeList
unfolding more
alloc answer fl = elim fl.head [
  | some item ↦ take_head fl item
  | none ↦ elim (more answer fl) [ none ↦ (none, fl) | some fl' ↦ from_head fl' fl'.head ]
]

-- `shmem_free_list_free`; `nalloc` is a `uint64_t`.
unfoldable pub free : FreeList → ℕ → FreeList
free fl item = record fl {
  next = store fl.next item fl.head;
  head = some item;
  nalloc = (fl.nalloc + (2 ^ 64 - 1)) % 2 ^ 64;
}

-- `calloc`
abbrev pub zeroed : ℕ → FreeList
zeroed element_size = record {
  element_size = element_size;
  nalloc = 0;
  allocs = [];
  head = none;
  next = λ _. none;
}

-- `shmem_free_list_init`, where `calloc_ok` says whether the list itself is allocated.
unfoldable pub init : Bool → Option ℕ → ℕ → Option FreeList
init calloc_ok answer element_size = if calloc_ok then more answer (zeroed element_size) else none
