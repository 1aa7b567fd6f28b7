-- ===== src/Collectives/Kary.antt =====
-- `shmem_internal_build_kary_tree` of src/collectives.c, on the PE `me`: the debug output is left out.
pub mod Laws
pub mod Spanning
use sandia_shmem.Base.{ℕ, zero, suc, ◌+◌, List, [], ◌∷◌, if◌then◌else◌}
use sandia_shmem.Base.Int.{ℤ, pos, ◌+ℤ◌, ◌-ℤ◌, ◌*ℤ◌, ◌/ℤ◌, ◌%ℤ◌, ltb_ℤ, pos_part}

-- The arguments that all PEs of the active set share.
pub record Tree : Type 0 where
  pub radix : ℤ
  pub pe_start : ℤ
  pub stride : ℤ
  pub pe_size : ℤ
  pub pe_root : ℤ

unfoldable pub my_id : Tree → ℤ → ℤ
my_id t me = ((me -ℤ t.pe_start) /ℤ t.stride +ℤ t.pe_size -ℤ t.pe_root) %ℤ t.pe_size

unfoldable pub parent : Tree → ℤ → ℤ
parent t me =
    t.pe_start +ℤ ((((my_id t me -ℤ pos 1) /ℤ t.radix) +ℤ t.pe_root) %ℤ t.pe_size) *ℤ t.stride

-- The loop over `i`, from `i` on with `left` rounds to go.
unfoldable pub children_from : Tree → ℤ → ℕ → ℕ → List ℤ
children_from t id zero i = []
children_from t id (suc left) i =
    let rest = children_from t id left (i + 1) in
    let tmp = t.radix *ℤ id +ℤ pos i in
    if ltb_ℤ tmp t.pe_size
    then (t.pe_start +ℤ ((t.pe_root +ℤ tmp) %ℤ t.pe_size) *ℤ t.stride) ∷ rest
    else rest

unfoldable pub children : Tree → ℤ → List ℤ
children t me = children_from t (my_id t me) (pos_part t.radix) 1
