-- ===== src/Collectives/FullTree/Spanning.antt =====
-- From a PE to its children in the tree of `shmem_internal_collectives_init`, src/collectives.c.
use sandia_shmem.Base.{
  ℕ, zero, suc, ◌+◌, ◌*◌, ◌-◌, ◌/◌, ◌<◌, ◌≤◌, ◌≡◌, sym, ap, ◌∙◌, List, [], ◌++◌, some, arith, Elem,
  Elem-append, dec_lt, inl, inr, ℕ_discrete,
}
use sandia_shmem.Collectives.FullTree.{tmp_radix, level_root, level_children, prepend, walk}
use native.Mathlib.Nat.{mul-add-div, div-eq_of_lt, mul-le-mul_right}
use sandia_shmem.Collectives.FullTree.Rounds.{
  walk-past, walk-break, walk-level, tmp_radix-pos, tmp_radix-whole, level_pass, root_at, grows,
}
use sandia_shmem.Collectives.FullTree.Levels.{level_children_iff, level_root-mul}

-- A PE that the walk from level `i` has found to be a child, from where it stands.
pub record Down (n r f i me c : ℕ) : Type 0 where
  pub quotient : ℕ
  pub multiple : c ≡ i * quotient
  pub above : me < c
  pub below : c < n
  pub cs : (rt : ℕ) → List ℕ
  pub runs : (rt : ℕ) → walk (suc f) n r c i rt ≡ some (record { my_root = me; found = cs rt })

module _ (n r : ℕ) (two : 2 ≤ r) where
  abbrev t : ℕ → ℕ
  t i = tmp_radix n r i

  -- A child at the level itself breaks there, with the PE as its root.
  child_breaks :
      (f i q me c : ℕ)
      → 0 < i
      → i ≤ n
      → me ≡ i * (t i * q)
      → Elem c (level_children n me i (t i - 1) 1)
      → Down n r f i me c
  child_breaks f i q me c hi le at_me m =
      let (k, lo, hi_k, e, lt) = (level_children_iff n me i (t i - 1) 1 c).0 m in
      let multiple : c ≡ i * (t i * q + k) = e ∙ omega arith in
      let below : (t i * q + k) / t i ≡ q =
        mul-add-div (tmp_radix-pos n r i two) q k
        ∙ omega (arith, div-eq_of_lt {n = k} {m = t i} (omega arith)) in
      let root : level_root n r c i ≡ me =
        ap (λ v. level_root n r v i) multiple
        ∙ level_root-mul n r i (t i * q + k) hi (tmp_radix-pos n r i two)
        ∙ ap (λ v. i * (v * t i)) below
        ∙ omega arith in
      let above : me < c = omega (arith, mul-le-mul_right k hi) in
      record {
        quotient = t i * q + k;
        multiple = multiple;
        above = above;
        below = lt;
        cs = λ rt. [];
        runs = λ rt.
            walk-break f n r c i rt le (λ same. absurd (omega (arith, root)))
            ∙ ap (λ v. some (record { my_root = v; found = [] })) root;
      }

  -- A child of a later level passes this one.
  child_passes :
      (f i me c : ℕ) → 0 < i → i ≤ n → i * r ≤ n → Down n r f (i * r) me c → Down n r (suc f) i me c
  child_passes f i me c hi le more d =
      let whole : t i ≡ r = tmp_radix-whole n r i hi more in
      let multiple : c ≡ i * (t i * d.quotient) = d.multiple ∙ rw whole (omega arith) in
      let pass : level_root n r c i ≡ c =
        ap (λ v. level_root n r v i) multiple ∙ level_pass n r i d.quotient hi two ∙ sym multiple in
      record {
        quotient = t i * d.quotient;
        multiple = multiple;
        above = d.above;
        below = d.below;
        cs = λ rt. level_children n c i (t i - 1) 1 ++ d.cs c;
        runs = λ rt. walk-level (suc f) n r c i rt le pass ∙ ap (prepend _) (d.runs c);
      }

  -- Every child that a walk finds has the walk's PE as its parent.
  pub record Downs (f i me rt : ℕ) : Type 0 where
    pub found : List ℕ
    pub root : ℕ
    pub runs : walk (suc f) n r me i rt ≡ some (record { my_root = root; found = found })
    pub each : (c : ℕ) → Elem c found → Down n r f i me c

  down_level :
      (f i q me rt : ℕ)
      → 0 < i
      → i ≤ n
      → n < i + suc f
      → me ≡ i * (t i * q)
      → ((rt' : ℕ) → i * r ≤ n → me ≡ i * r * q → Downs f (i * r) me rt')
      → Downs (suc f) i me rt
  down_level f i q me rt hi le room at_me ih =
      let pass : level_root n r me i ≡ me =
        ap (λ v. level_root n r v i) at_me ∙ level_pass n r i q hi two ∙ sym at_me in
      elim (dec_lt n (i * r)) [
        | yes last ↦ record {
          found = level_children n me i (t i - 1) 1 ++ [];
          root = me;
          runs =
              walk-level (suc f) n r me i rt le pass
              ∙ ap (prepend _) (walk-past f n r me (i * r) me last);
          each = λ c m. elim (Elem-append c (level_children n me i (t i - 1) 1) [] m) [
            | inl here ↦ child_breaks (suc f) i q me c hi le at_me here
            | inr none_left ↦ absurd none_left
          ];
        }
        | no again ↦
            let more : i * r ≤ n = omega arith in
            let whole : t i ≡ r = tmp_radix-whole n r i hi more in
            let d = ih me more (at_me ∙ rw whole (omega arith)) in
            record {
              found = level_children n me i (t i - 1) 1 ++ d.found;
              root = d.root;
              runs = walk-level (suc f) n r me i rt le pass ∙ ap (prepend _) d.runs;
              each = λ c m. elim (Elem-append c (level_children n me i (t i - 1) 1) d.found m) [
                | inl here ↦ child_breaks (suc f) i q me c hi le at_me here
                | inr later ↦ child_passes f i me c hi le more (d.each c later)
              ];
            }
      ]

  pub down : (f i x me rt : ℕ) → 0 < i → n < i + f → me ≡ i * x → Downs f i me rt
  down zero i x me rt hi room at_me = record {
    found = [];
    root = rt;
    runs = walk-past zero n r me i rt (omega arith);
    each = λ c m. absurd m;
  }
  down (suc f) i x me rt hi room at_me = elim (dec_lt n i) [
    | yes past ↦ record {
      found = [];
      root = rt;
      runs = walk-past (suc f) n r me i rt past;
      each = λ c m. absurd m;
    }
    | no more ↦ elim (ℕ_discrete (level_root n r me i) me) [
      | yes pass ↦
          down_level f i (x / t i) me rt hi (omega arith) room
            (sym pass ∙ root_at n r two i x me hi at_me)
            (λ rt' le e.
              down f (i * r) (x / t i) me rt' (omega (arith, grows i r hi two))
                (omega (arith, grows i r hi two)) e)
      | no ne ↦ record {
        found = [];
        root = level_root n r me i;
        runs = walk-break (suc f) n r me i rt (omega arith) ne;
        each = λ c m. absurd m;
      }
    ]
  ]
