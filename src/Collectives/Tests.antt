-- ===== src/Collectives/Tests.antt =====
-- Runs of the trees of src/collectives.c.
use sandia_shmem.Base.{ℕ, ◌<◌, ◌≡◌, refl, [], ◌∷◌, none, some, arith, length, Elem}
use sandia_shmem.Base.Int.{pos, ◌+ℤ◌, ◌-ℤ◌, ◌*ℤ◌, ◌/ℤ◌, ◌%ℤ◌}
use sandia_shmem.Collectives.Kary.{Tree, my_id, parent, children, children_from}
use sandia_shmem.Collectives.Kary.Laws.{InRange, at_id}
use sandia_shmem.Collectives.Kary.Spanning.{parent-children}
use sandia_shmem.Collectives.FullTree.{
  FullTree, tmp_radix, level_root, level_children, level_count, walk, full_tree,
}
use sandia_shmem.Collectives.FullTree.Rounds.{walk_radix_one}
use sandia_shmem.Collectives.FullTree.Tree.{full_tree-total, full_tree-parent}

-- The PEs 1, 3, 5, 7 and 9, with 5 as the root.
abbrev five : Tree
five = record { radix = pos 2; pe_start = pos 1; stride = pos 2; pe_size = pos 5; pe_root = pos 2 }

five-InRange : InRange five 2 1 2 5 2
five-InRange = record {
  radix = refl;
  start = refl;
  stride = refl;
  size = refl;
  at_root = refl;
  two = omega arith;
  positive = omega arith;
  inside = omega arith;
}

five_children : children five (pos 5) ≡ pos 7 ∷ pos 9 ∷ []
unfolding children children_from my_id ◌+ℤ◌ ◌-ℤ◌ ◌*ℤ◌ ◌/ℤ◌ ◌%ℤ◌
five_children = refl

parent-children_example :
    (parent five (pos (at_id five-InRange 0)) ≡ pos (at_id five-InRange 0))
    × ((id : ℕ)
        → 0 < id
        → id < 5
        → (p : ℕ) × (p < id)
          × (parent five (pos (at_id five-InRange id)) ≡ pos (at_id five-InRange p))
          × Elem
              (pos (at_id five-InRange id))
              (children five (parent five (pos (at_id five-InRange id)))))
parent-children_example = parent-children five-InRange

-- PE 0 of ten, with a radix of 2: its children, the last one found first.
abbrev root_of_ten : FullTree
root_of_ten = record { parent = 0; num_children = 4; children = 8 ∷ 4 ∷ 2 ∷ 1 ∷ [] }

full_tree_runs : full_tree 10 2 0 ≡ some root_of_ten
unfolding full_tree tmp_radix level_root level_children level_count
full_tree_runs = refl

full_tree-total_example :
    (t : FullTree) × (full_tree 10 2 3 ≡ some t) × (t.num_children ≡ length t.children)
full_tree-total_example = full_tree-total 10 2 3 (omega arith)

full_tree-parent_example :
    (u : FullTree) × (t : FullTree) × (full_tree 10 2 7 ≡ some u)
    × (u.parent < 7)
    × (full_tree 10 2 u.parent ≡ some t)
    × Elem 7 t.children
full_tree-parent_example = full_tree-parent 10 2 7 (omega arith) (omega arith) (omega arith)

walk_radix_one_example : walk 5 4 1 2 1 0 ≡ none
walk_radix_one_example = walk_radix_one 5 4 2 0 (omega arith)
