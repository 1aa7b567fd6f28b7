-- ===== src/Collectives/FullTree/Rounds.antt =====
-- The rounds of the loop over `i` in `shmem_internal_collectives_init` of src/collectives.c.
use native.Mathlib.Nat.{
  le-div_iff_mul-le, div-lt_iff_lt-mul, lt-mul-div-succ, mul-div_cancel_left, mul-le-mul_left,
}
use sandia_shmem.Base.{
  ℕ, zero, suc, ◌+◌, ◌*◌, ◌-◌, ◌/◌, ◌<◌, ◌≤◌, ◌≡◌, ◌≢◌, refl, ap, ◌∙◌, [], ◌++◌, none, some, arith,
  dec_lt, ℕ_discrete,
}
use sandia_shmem.Collectives.FullTree.{Walk, tmp_radix, level_root, level_children, prepend, walk}
use sandia_shmem.Collectives.FullTree.Levels.{level_root-mul}

-- The three ways of a round.
pub walk-past :
    (f n r me i root : ℕ)
    → n < i
    → walk (suc f) n r me i root ≡ some (record { my_root = root; found = [] })
unfolding walk
walk-past f n r me i root h = ground arith

pub walk-break :
    (f n r me i root : ℕ)
    → i ≤ n
    → level_root n r me i ≢ me
    → walk (suc f) n r me i root ≡ some (record { my_root = level_root n r me i; found = [] })
unfolding walk
walk-break f n r me i root h ne = ground arith

pub walk-level :
    (f n r me i root : ℕ)
    → i ≤ n
    → level_root n r me i ≡ me
    → walk (suc f) n r me i root
      ≡ prepend (level_children n me i (tmp_radix n r i - 1) 1) (walk f n r me (i * r) me)
unfolding walk
walk-level f n r me i root h e = ground arith

pub tmp_radix-pos : (n r i : ℕ) → 2 ≤ r → 0 < tmp_radix n r i
unfolding tmp_radix
tmp_radix-pos n r i h = ground arith

-- Where another level follows, the radix is whole; the last level reaches beyond n.
pub tmp_radix-whole : (n r i : ℕ) → 0 < i → i * r ≤ n → tmp_radix n r i ≡ r
unfolding tmp_radix
tmp_radix-whole n r i hi h =
    let le : r ≤ n / i = (le-div_iff_mul-le hi).1 (omega arith) in ground arith

pub tmp_radix-last : (n r i : ℕ) → 0 < i → n < i * r → n < i * tmp_radix n r i
unfolding tmp_radix
tmp_radix-last n r i hi h =
    let lt : n / i < r = (div-lt_iff_lt-mul hi).1 (omega arith) in
    ground (arith, lt-mul-div-succ n hi)

-- A multiple of the block passes the test of the break.
pub level_pass :
    (n r i q : ℕ)
    → 0 < i
    → 2 ≤ r
    → let t = tmp_radix n r i in level_root n r (i * (t * q)) i ≡ i * (t * q)
level_pass n r i q hi h =
    let t = tmp_radix n r i in
    let ht = tmp_radix-pos n r i h in
    level_root-mul n r i (t * q) hi ht
    ∙ ap (λ v. i * (v * t)) (mul-div_cancel_left q ht)
    ∙ omega arith

pub grows : (i r : ℕ) → 0 < i → 2 ≤ r → i + 1 ≤ i * r
grows i r hi h = omega (arith, mul-le-mul_left i h)

-- The loop ends within n + 1 rounds.
pub walk_total :
    (f n r me i root : ℕ)
    → 2 ≤ r
    → 0 < i
    → n < i + f
    → (w : Walk) × (walk (suc f) n r me i root ≡ some w)
walk_total zero n r me i root h hi room = (_, walk-past zero n r me i root (omega arith))
walk_total (suc f) n r me i root h hi room = elim (dec_lt n i) [
  | yes past ↦ (_, walk-past (suc f) n r me i root past)
  | no more ↦ elim (ℕ_discrete (level_root n r me i) me) [
    | yes e ↦
        let (w, runs) =
          walk_total f n r me (i * r) me h (omega (arith, grows i r hi h))
            (omega (arith, grows i r hi h)) in
        (
          record w { found = level_children n me i (tmp_radix n r i - 1) 1 ++ w.found },
          walk-level (suc f) n r me i root (omega arith) e ∙ ap (prepend _) runs,
        )
    | no ne ↦ (_, walk-break (suc f) n r me i root (omega arith) ne)
  ]
]

one_root : (n me : ℕ) → 0 < n → level_root n 1 me 1 ≡ me
unfolding level_root tmp_radix
one_root n me h = ground arith

-- With a radix of 1 the loop never ends, whatever the fuel, in a job of one PE or more.
pub walk_radix_one : (f n me root : ℕ) → 0 < n → walk f n 1 me 1 root ≡ none
unfolding walk
walk_radix_one zero n me root h = refl
walk_radix_one (suc f) n me root h =
    walk-level f n 1 me 1 root (omega arith) (one_root n me h)
    ∙ ap (prepend _) (walk_radix_one f n me me h)

-- On a multiple of `i` the root is a multiple of the block.
pub root_at :
    (n r : ℕ)
    → 2 ≤ r
    → (i x me : ℕ) → 0 < i
    → me ≡ i * x
    → let t = tmp_radix n r i in level_root n r me i ≡ i * (t * (x / t))
root_at n r two i x me hi at_me =
    ap (λ v. level_root n r v i) at_me
    ∙ level_root-mul n r i x hi (tmp_radix-pos n r i two)
    ∙ omega arith
