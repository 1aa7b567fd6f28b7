-- ===== src/Collectives/FullTree/Distinct.antt =====
-- The children in the tree of `shmem_internal_collectives_init`, src/collectives.c, as a list without repetition.
use sandia_shmem.Base.{
  ℕ, zero, suc, ◌+◌, ◌*◌, ◌-◌, ◌<◌, ◌≤◌, ◌≡◌, refl, ap, ◌∙◌, List, [], ◌∷◌, ◌++◌, some, arith, Elem,
  Elem-append, IsDistinct, IsDistinct-append, dec_lt, ℕ_discrete, ltb, Bool-cases, inl, inr,
}
use mathlib.Core.List.{reverse, reverse-cons}
use native.Mathlib.Nat.{mul-le-mul_left, zero-div}
use sandia_shmem.Collectives.FullTree.{
  FullTree, Walk, tmp_radix, level_root, level_children, prepend, walk, full_tree,
}
use sandia_shmem.Collectives.FullTree.Levels.{level_children_iff}
use sandia_shmem.Collectives.FullTree.Rounds.{walk-past, walk-break, walk-level, grows}
use sandia_shmem.Collectives.FullTree.Tree.{Elem-reverse_inv, full_tree-runs}

level_children-IsDistinct : (n me i left j : ℕ) → 0 < i → IsDistinct (level_children n me i left j)
unfolding level_children
level_children-IsDistinct n me i zero j h = tt
level_children-IsDistinct n me i (suc left) j h =
    let ih = level_children-IsDistinct n me i left (j + 1) h in
    elim (Bool-cases (ltb (me + i * j) n)) [
      | inr outside ↦ rw outside ih
      | inl inside ↦ rw inside (
        (λ m.
            let (k, lo, hi, e, lt) = (level_children_iff n me i left (j + 1) (me + i * j)).0 m in
            omega (arith, e, mul-le-mul_left i lo)),
        ih,
      )
    ]

-- What the loop from level `i` finds: distinct PEs at a distance of `i` or more; PE 0 is its own root.
record Found (n r f me i root : ℕ) : Type 0 where
  w : Walk
  runs : walk (suc f) n r me i root ≡ some w
  distinct : IsDistinct w.found
  far : (c : ℕ) → Elem c w.found → me + i ≤ c
  own_root : me ≡ 0 → root ≡ 0 → w.my_root ≡ 0

level_root-zero : (n r i : ℕ) → level_root n r 0 i ≡ 0
unfolding level_root
level_root-zero n r i =
    omega (arith, ap (λ x. x * (tmp_radix n r i * i)) (zero-div (tmp_radix n r i * i)))

tmp_radix-le : (n r i : ℕ) → tmp_radix n r i ≤ r
unfolding tmp_radix
tmp_radix-le n r i = ground arith

module _ (n r : ℕ) (two : 2 ≤ r) where
  Found-level :
      (f me i root : ℕ)
      → 0 < i
      → i ≤ n
      → level_root n r me i ≡ me
      → Found n r f me (i * r) me
      → Found n r (suc f) me i root
  Found-level f me i root hi le e rest =
      let t = tmp_radix n r i in
      record {
        w = record rest.w { found = level_children n me i (t - 1) 1 ++ rest.w.found };
        runs = walk-level (suc f) n r me i root le e ∙ ap (prepend _) rest.runs;
        distinct =
            IsDistinct-append (level_children n me i (t - 1) 1) rest.w.found
              (level_children-IsDistinct n me i (t - 1) 1 hi) rest.distinct
              (λ c m m'.
                let (k, lo, hi_k, q, lt) = (level_children_iff n me i (t - 1) 1 c).0 m in
                let near : k + 1 ≤ r = omega (arith, tmp_radix-le n r i) in
                omega (arith, q, rest.far c m', mul-le-mul_left i near));
        far = λ c m. elim (Elem-append c (level_children n me i (t - 1) 1) rest.w.found m) [
          | inl here ↦
              let (k, lo, hi_k, q, lt) = (level_children_iff n me i (t - 1) 1 c).0 here in
              omega (arith, q, mul-le-mul_left i lo)
          | inr later ↦ omega (arith, rest.far c later, grows i r hi two)
        ];
        own_root = λ at_zero _. rest.own_root at_zero at_zero;
      }

  nothing :
      (f me i root top : ℕ)
      → walk (suc f) n r me i root ≡ some (record { my_root = top; found = [] })
      → (me ≡ 0 → root ≡ 0 → top ≡ 0)
      → Found n r f me i root
  nothing f me i root top e own = record {
    w = record { my_root = top; found = [] };
    runs = e;
    distinct = tt;
    far = λ c m. absurd m;
    own_root = own;
  }

  walk-Found : (f me i root : ℕ) → 0 < i → n < i + f → Found n r f me i root
  walk-Found zero me i root hi room =
      nothing zero me i root root (walk-past zero n r me i root (omega arith)) (λ _ e. e)
  walk-Found (suc f) me i root hi room = elim (dec_lt n i) [
    | yes past ↦ nothing (suc f) me i root root (walk-past (suc f) n r me i root past) (λ _ e. e)
    | no more ↦ elim (ℕ_discrete (level_root n r me i) me) [
      | yes e ↦ Found-level f me i root hi (omega arith) e (
          walk-Found f me (i * r) me (omega (arith, grows i r hi two))
            (omega (arith, grows i r hi two)))
      | no other ↦
          nothing (suc f) me i root (level_root n r me i)
            (walk-break (suc f) n r me i root (omega arith) other)
            (λ at_zero _. ap (λ x. level_root n r x i) at_zero ∙ level_root-zero n r i)
    ]
  ]

IsDistinct-reverse : (xs : List ℕ) → IsDistinct xs → IsDistinct (reverse xs)
IsDistinct-reverse [] d = tt
IsDistinct-reverse (x ∷ xs) d = rw reverse-cons (
    IsDistinct-append (reverse xs) (x ∷ []) (IsDistinct-reverse xs d.1) ((λ m. m), tt)
      (λ c m m'. elim m' [
        | inl e ↦ d.0 (Elem-reverse_inv x xs (rw⁻¹ e m))
        | inr none_left ↦ none_left
      ]))

-- The tree of a PE: what it finds, its children once each, and 0 as the parent of 0.
pub full_tree_found :
    (n r me : ℕ)
    → 2 ≤ r
    → (t : FullTree) × (full_tree n r me ≡ some t) × IsDistinct t.children × (me ≡ 0 → t.parent ≡ 0)
full_tree_found n r me two =
    let g = walk-Found n r two n me 1 0 (omega arith) (omega arith) in
    (
      _,
      full_tree-runs n r me g.w g.runs,
      IsDistinct-reverse g.w.found g.distinct,
      λ at_zero. g.own_root at_zero refl,
    )
