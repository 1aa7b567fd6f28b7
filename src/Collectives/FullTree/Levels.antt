-- ===== src/Collectives/FullTree/Levels.antt =====
-- One level of the tree of src/collectives.c: PEs that are multiples of `i`.
use sandia_shmem.Base.{
  ℕ, zero, suc, ◌+◌, ◌*◌, ◌/◌, ◌<◌, ◌≤◌, ◌≡◌, ◌↔◌, refl, ap, ◌∙◌, arith, Elem, dec_lt, ltb, length,
  Bool-cases, inl, inr,
}
use native.Mathlib.Nat.{div-eq_of_lt-le, div-add-mod, mod-lt, mul-lt-mul_of_pos_left}
use sandia_shmem.Collectives.FullTree.{tmp_radix, level_root, level_children, level_count}

-- A child of the level is me + i * k for a k of the rounds, below n.
pub level_children_iff :
    (n me i left j c : ℕ)
    → Elem c (level_children n me i left j)
      ↔ ((k : ℕ) × (j ≤ k) × (k < j + left) × (c ≡ me + i * k) × (c < n))
unfolding level_children
level_children_iff n me i zero j c = ((λ m. absurd m), (λ (k, lo, hi, e, lt). absurd (omega arith)))
level_children_iff n me i (suc left) j c =
    let ih = level_children_iff n me i left (j + 1) c in
    elim (Bool-cases (ltb (me + i * j) n)) [
      | inl inside ↦ rw inside (
        (λ m. elim m [
          | inl e ↦ (j, omega arith, omega arith, e, ground arith)
          | inr below ↦ let (k, lo, hi, e, lt) = ih.0 below in (k, omega arith, omega arith, e, lt)
        ]),
        (λ (k, lo, hi, e, lt). elim (dec_lt j k) [
          | yes later ↦ inr (ih.1 (k, omega arith, omega arith, e, lt))
          | no here ↦ inl (e ∙ ap (λ v. me + i * v) (omega arith))
        ]),
      )
      | inr outside ↦ rw outside (
        (λ m. let (k, lo, hi, e, lt) = ih.0 m in (k, omega arith, omega arith, e, lt)),
        (λ (k, lo, hi, e, lt). elim (dec_lt j k) [
          | yes later ↦ ih.1 (k, omega arith, omega arith, e, lt)
          | no here ↦
              let same : j ≡ k = omega arith in absurd (ground (arith, ap (λ v. me + i * v) same))
        ]),
      )
    ]

-- Both passes make the same test.
pub length-level_children :
    (n me i left j : ℕ) → length (level_children n me i left j) ≡ level_count n me i left j
unfolding level_children level_count
length-level_children n me i zero j = refl
length-level_children n me i (suc left) j =
    ground (arith, length-level_children n me i left (j + 1))

-- On a multiple of `i` the level works on the quotient.
pub level_root-mul :
    (n r i y : ℕ)
    → 0 < i
    → 0 < tmp_radix n r i
    → level_root n r (i * y) i ≡ i * (y / tmp_radix n r i * tmp_radix n r i)
unfolding level_root
level_root-mul n r i y hi ht =
    let t = tmp_radix n r i in
    let q : i * y / (t * i) ≡ y / t =
      div-eq_of_lt-le (t * i) (omega (arith, ap (λ v. i * v) (div-add-mod y t))) (
        omega
          (arith, ap (λ v. i * v) (div-add-mod y t), mul-lt-mul_of_pos_left (mod-lt y ht) hi)) in
    ap (λ v. v * (t * i)) q ∙ omega arith
