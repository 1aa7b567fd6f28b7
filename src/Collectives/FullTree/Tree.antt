-- ===== src/Collectives/FullTree/Tree.antt =====
-- The tree that `shmem_internal_collectives_init` of src/collectives.c builds over all PEs, as a whole.
use mathlib.Core.Path.{subst}
use sandia_shmem.Base.{
  ℕ, zero, suc, ◌+◌, ◌-◌, ◌*◌, ◌<◌, ◌≤◌, ◌≡◌, refl, sym, ap, ◌∙◌, inl, inr, List, [], ◌∷◌, Option,
  none, some, arith, Elem, Elem-append, Elem-left, Elem-right, length, length-append, dec_lt,
  ℕ_discrete,
}
use mathlib.Core.List.{reverse, reverse-cons}
use sandia_shmem.Collectives.FullTree.{
  FullTree, Walk, tmp_radix, level_root, level_children, prepend, walk, count_walk, add_count,
  assemble, full_tree,
}
use sandia_shmem.Collectives.FullTree.Levels.{length-level_children}
use sandia_shmem.Collectives.FullTree.Rounds.{walk_total, walk-level}
use sandia_shmem.Collectives.FullTree.Spanning.{down}
use sandia_shmem.Collectives.FullTree.Up.{up}

Elem-reverse : (c : ℕ) (xs : List ℕ) → Elem c xs → Elem c (reverse xs)
Elem-reverse c [] m = absurd m
Elem-reverse c (x ∷ xs) (inl e) = rw reverse-cons (Elem-right c (reverse xs) (x ∷ []) (inl e))
Elem-reverse c (x ∷ xs) (inr m) =
    rw reverse-cons (Elem-left c (reverse xs) (x ∷ []) (Elem-reverse c xs m))

pub Elem-reverse_inv : (c : ℕ) (xs : List ℕ) → Elem c (reverse xs) → Elem c xs
Elem-reverse_inv c [] m = m
Elem-reverse_inv c (x ∷ xs) m = elim (Elem-append c (reverse xs) (x ∷ []) (rw reverse-cons at m)) [
  | inl later ↦ inr (Elem-reverse_inv c xs later)
  | inr (inl e) ↦ inl e
  | inr (inr none_left) ↦ absurd none_left
]

length-reverse : (xs : List ℕ) → length (reverse xs) ≡ length xs
length-reverse [] = refl
length-reverse (x ∷ xs) =
    rw reverse-cons (omega (arith, length-append (reverse xs) (x ∷ []), length-reverse xs))

-- The two passes make the same rounds.
abbrev counted : Option Walk → Option ℕ
counted none = none
counted (some w) = some (length w.found)

counted-prepend :
    (cs : List ℕ) (o : Option Walk) → add_count (length cs) (counted o) ≡ counted (prepend cs o)
counted-prepend cs none = refl
counted-prepend cs (some w) = ap some (sym (length-append cs w.found))

count_walk-walk : (f n r me i root : ℕ) → count_walk f n r me i ≡ counted (walk f n r me i root)
unfolding count_walk walk
count_walk-walk zero n r me i root = refl
count_walk-walk (suc f) n r me i root = elim (dec_lt n i) [
  | yes past ↦ ground arith
  | no more ↦ elim (ℕ_discrete (level_root n r me i) me) [
    | no ne ↦ ground arith
    | yes e ↦ rw (walk-level f n r me i root (omega arith) e) (
        rw
          (sym (
            counted-prepend (level_children n me i (tmp_radix n r i - 1) 1)
              (walk f n r me (i * r) me)))
          (rw (length-level_children n me i (tmp_radix n r i - 1) 1)
            (rw (sym (count_walk-walk f n r me (i * r) me)) (ground arith))))
  ]
]

-- What the two passes give, put together.
pub full_tree-runs :
    (n r me : ℕ) (w : Walk)
    → walk (suc n) n r me 1 0 ≡ some w
    → full_tree n r me
      ≡ some
          (record { parent = w.my_root; num_children = length w.found; children = reverse w.found })
unfolding full_tree
full_tree-runs n r me w runs =
    let count : count_walk (suc n) n r me 1 ≡ some (length w.found) =
      count_walk-walk (suc n) n r me 1 0 ∙ ap counted runs in
    let e : n + 1 ≡ suc n = omega arith in
    ap (λ k. assemble (walk k n r me 1 0) (count_walk k n r me 1)) e
    ∙ ap (λ o. assemble o (count_walk (suc n) n r me 1)) runs
    ∙ ap (assemble (some w)) count

the_tree : {t u : FullTree} → some t ≡ some u → t ≡ u
the_tree {t} e = ap (λ o. elim o [ none ↦ t | some x ↦ x ]) e

-- With a radix of 2 or more the construction ends for every PE, within n + 1 rounds of its loops, and
-- the number of children of the first pass is the number of those that the second pass stores.
pub full_tree-total :
    (n r me : ℕ)
    → 2 ≤ r
    → (t : FullTree) × (full_tree n r me ≡ some t) × (t.num_children ≡ length t.children)
full_tree-total n r me two =
    let (w, runs) = walk_total n n r me 1 0 two (omega arith) (omega arith) in
    (_, full_tree-runs n r me w runs, sym (length-reverse w.found))

-- With a radix of 2 or more, every child `c` of a PE `me` lies above `me` and below the number of PEs `n`, and
-- computes `me` as its own parent.
pub full_tree-child :
    (n r me c : ℕ) (t : FullTree)
    → 2 ≤ r
    → full_tree n r me ≡ some t
    → Elem c t.children
    → (me < c) × (c < n) × ((u : FullTree) × (full_tree n r c ≡ some u) × (u.parent ≡ me))
full_tree-child n r me c t two e m =
    let d = down n r two n 1 me me 0 (omega arith) (omega arith) (omega arith) in
    let same = the_tree (sym e ∙ full_tree-runs n r me _ d.runs) in
    let at =
      d.each c (Elem-reverse_inv c d.found (subst (λ v. Elem c v) (ap (λ v. v.children) same) m)) in
    (at.above, at.below, (_, full_tree-runs n r c _ (at.runs 0), refl))

-- With a radix of 2 or more, every PE `c` other than 0 computes a parent below it, and is among the
-- children that this parent computes.
pub full_tree-parent :
    (n r c : ℕ)
    → 2 ≤ r
    → 0 < c
    → c < n
    → (u : FullTree) × (t : FullTree) × (full_tree n r c ≡ some u)
      × (u.parent < c)
      × (full_tree n r u.parent ≡ some t)
      × Elem c t.children
full_tree-parent n r c two positive lt =
    let u = up n r two n 1 c c 0 (omega arith) (omega arith) (omega arith) positive lt in
    let (runs, at) = u.listed 0 in
    (
      _,
      _,
      full_tree-runs n r c _ u.runs,
      u.below,
      full_tree-runs n r u.p _ runs,
      Elem-reverse c (u.found_of 0) at,
    )
