-- ===== src/Collectives/FullTree.antt =====
-- The tree over all PEs that `shmem_internal_collectives_init` of src/collectives.c builds, for a job of
-- `n` PEs, the radix `r` and the PE `me`. The two loops over `i` take fuel; `none` is the fuel running
-- out.
pub mod Levels
pub mod Rounds
pub mod Up
pub mod Tree
pub mod Distinct
pub mod Spanning
use sandia_shmem.Base.{
  ℕ, zero, suc, ◌+◌, ◌*◌, ◌-◌, ◌/◌, List, [], ◌∷◌, ◌++◌, Option, none, some, if◌then◌else◌, ltb,
  leb, ◌==◌, true, false,
}
use mathlib.Core.List.{reverse}

unfoldable pub tmp_radix : ℕ → ℕ → ℕ → ℕ
tmp_radix n r i = if ltb (n / i) r then n / i + 1 else r

unfoldable pub level_root : ℕ → ℕ → ℕ → ℕ → ℕ
level_root n r me i = me / (tmp_radix n r i * i) * (tmp_radix n r i * i)

-- The inner loop of the second pass, from `j` on with `left` rounds to go: the children in the order in
-- which they are found.
unfoldable pub level_children : ℕ → ℕ → ℕ → ℕ → ℕ → List ℕ
level_children n me i zero j = []
level_children n me i (suc left) j =
    let rest = level_children n me i left (j + 1) in
    if ltb (me + i * j) n then (me + i * j) ∷ rest else rest

-- The inner loop of the first pass.
unfoldable pub level_count : ℕ → ℕ → ℕ → ℕ → ℕ → ℕ
level_count n me i zero j = 0
level_count n me i (suc left) j =
    let rest = level_count n me i left (j + 1) in if ltb (me + i * j) n then suc rest else rest

-- `my_root` and the children found, in order.
pub record Walk : Type 0 where
  pub my_root : ℕ
  pub found : List ℕ

abbrev pub prepend : List ℕ → Option Walk → Option Walk
prepend cs none = none
prepend cs (some w) = some (record w { found = cs ++ w.found })

-- The second pass from level `i`, where `root` is the value of `my_root` so far. Where the test of the
-- break fails, `my_root` is `me`.
unfoldable pub walk : ℕ → ℕ → ℕ → ℕ → ℕ → ℕ → Option Walk
walk zero n r me i root = none
walk (suc fuel) n r me i root = elim (leb i n) [
  | false ↦ some (record { my_root = root; found = [] })
  | true ↦ elim (level_root n r me i == me) [
    | false ↦ some (record { my_root = level_root n r me i; found = [] })
    | true ↦ prepend (level_children n me i (tmp_radix n r i - 1) 1) (walk fuel n r me (i * r) me)
  ]
]

abbrev pub add_count : ℕ → Option ℕ → Option ℕ
add_count k none = none
add_count k (some m) = some (k + m)

-- The first pass, which counts.
unfoldable pub count_walk : ℕ → ℕ → ℕ → ℕ → ℕ → Option ℕ
count_walk zero n r me i = none
count_walk (suc fuel) n r me i = elim (leb i n) [
  | false ↦ some 0
  | true ↦ elim (level_root n r me i == me) [
    | false ↦ some 0
    | true ↦ add_count (level_count n me i (tmp_radix n r i - 1) 1) (count_walk fuel n r me (i * r))
  ]
]

-- `full_tree_parent`, `full_tree_num_children` and `full_tree_children`. The second pass stores from the
-- end of the array down, so the array is the list of the children found, reversed.
pub record FullTree : Type 0 where
  pub parent : ℕ
  pub num_children : ℕ
  pub children : List ℕ

abbrev pub assemble : Option Walk → Option ℕ → Option FullTree
assemble none c = none
assemble (some w) none = none
assemble (some w) (some c) =
    some (record { parent = w.my_root; num_children = c; children = reverse w.found })

unfoldable pub full_tree : ℕ → ℕ → ℕ → Option FullTree
unfolding walk count_walk
full_tree n r me = assemble (walk (n + 1) n r me 1 0) (count_walk (n + 1) n r me 1)
