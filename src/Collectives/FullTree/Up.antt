-- ===== src/Collectives/FullTree/Up.antt =====
-- From a PE to its parent in the tree of `shmem_internal_collectives_init`, src/collectives.c.
use sandia_shmem.Base.{
  ℕ, zero, suc, ◌+◌, ◌*◌, ◌-◌, ◌/◌, ◌%◌, ◌<◌, ◌≤◌, ◌≡◌, ◌≢◌, refl, sym, ap, ◌∙◌, List, [], ◌++◌,
  some, arith, Elem, Elem-left, Elem-right, dec_lt, ℕ_discrete,
}
use sandia_shmem.Collectives.FullTree.{tmp_radix, level_root, level_children, prepend, walk}
use native.Mathlib.Nat.{mul-le-mul_right, mul-le-mul_left, div-add-mod, mod-lt}
use sandia_shmem.Collectives.FullTree.Rounds.{
  walk-break, walk-level, tmp_radix-pos, tmp_radix-whole, tmp_radix-last, level_pass, walk_total,
  root_at, grows,
}
use sandia_shmem.Collectives.FullTree.Levels.{level_children_iff}

-- The PE `c` finds a parent below it, and the walk of the parent finds `c`.
pub record Up (n r f i c rt : ℕ) : Type 0 where
  pub p : ℕ
  pub cs : List ℕ
  pub runs : walk (suc f) n r c i rt ≡ some (record { my_root = p; found = cs })
  pub below : p < c
  pub quotient : ℕ
  pub multiple : p ≡ i * quotient
  pub root_of : ℕ → ℕ
  pub found_of : ℕ → List ℕ
  pub listed :
      (rt' : ℕ)
      → (walk (suc f) n r p i rt' ≡ some (record { my_root = root_of rt'; found = found_of rt' }))
        × Elem c (found_of rt')

positive_factor : (i k : ℕ) → (i * k ≢ 0) → 0 < k
positive_factor i zero ne = absurd (ne (omega arith))
positive_factor i (suc k) ne = omega arith

module _ (n r : ℕ) (two : 2 ≤ r) where
  abbrev t : ℕ → ℕ
  t i = tmp_radix n r i

  -- The level at which the PE `c` breaks.
  Up-break :
      (f i y c rt : ℕ)
      → 0 < i
      → i ≤ n
      → n < i + suc f
      → c ≡ i * y
      → c < n
      → level_root n r c i ≢ c
      → Up n r (suc f) i c rt
  Up-break f i y c rt hi le room at_c lt ne =
      let ht = tmp_radix-pos n r i two in
      let p = i * (t i * (y / t i)) in
      let root : level_root n r c i ≡ p = root_at n r two i y c hi at_c in
      let e : c ≡ p + i * (y % t i) = omega (arith, ap (λ v. i * v) (div-add-mod y (t i))) in
      let k_pos : 0 < y % t i = positive_factor i (y % t i) (λ z. ne (root ∙ omega arith)) in
      let pass : level_root n r p i ≡ p = level_pass n r i (y / t i) hi two in
      let (w, rest) =
        walk_total f n r p (i * r) p two (omega (arith, grows i r hi two))
          (omega (arith, grows i r hi two)) in
      record {
        p = p;
        cs = [];
        runs =
            walk-break (suc f) n r c i rt le ne
            ∙ ap (λ v. some (record { my_root = v; found = [] })) root;
        below = omega (arith, mul-le-mul_left i k_pos);
        quotient = t i * (y / t i);
        multiple = refl;
        root_of = λ rt'. w.my_root;
        found_of = λ rt'. level_children n p i (t i - 1) 1 ++ w.found;
        listed = λ rt'. (
          walk-level (suc f) n r p i rt' le pass ∙ ap (prepend _) rest,
          Elem-left c (level_children n p i (t i - 1) 1) w.found (
              (level_children_iff n p i (t i - 1) 1 c).1
                (y % t i, k_pos, omega (arith, mod-lt y ht), e, lt)),
        );
      }

  -- A parent that a later level finds is the parent at this level.
  Up-later :
      (f i q c rt : ℕ)
      → 0 < i
      → i ≤ n
      → i * r ≤ n
      → c ≡ i * (t i * q)
      → Up n r f (i * r) c c
      → Up n r (suc f) i c rt
  Up-later f i q c rt hi le more at_c u =
      let whole : t i ≡ r = tmp_radix-whole n r i hi more in
      let at_p : u.p ≡ i * (t i * u.quotient) = u.multiple ∙ rw whole (omega arith) in
      let pass : level_root n r c i ≡ c =
        ap (λ v. level_root n r v i) at_c ∙ level_pass n r i q hi two ∙ sym at_c in
      let pass_p : level_root n r u.p i ≡ u.p =
        ap (λ v. level_root n r v i) at_p ∙ level_pass n r i u.quotient hi two ∙ sym at_p in
      record {
        p = u.p;
        cs = level_children n c i (t i - 1) 1 ++ u.cs;
        runs = walk-level (suc f) n r c i rt le pass ∙ ap (prepend _) u.runs;
        below = u.below;
        quotient = t i * u.quotient;
        multiple = at_p;
        root_of = λ rt'. u.root_of u.p;
        found_of = λ rt'. level_children n u.p i (t i - 1) 1 ++ u.found_of u.p;
        listed = λ rt'.
            let (runs_p, at) = u.listed u.p in
            (
              walk-level (suc f) n r u.p i rt' le pass_p ∙ ap (prepend _) runs_p,
              Elem-right c (level_children n u.p i (t i - 1) 1) (u.found_of u.p) at,
            );
      }

  -- Beyond the last level only 0 is a multiple of the block.
  last_zero : (i q c : ℕ) → 0 < i → n < i * r → c ≡ i * (t i * q) → c < n → c ≡ 0
  last_zero i zero c hi last at_c lt = omega arith
  last_zero i (suc q) c hi last at_c lt =
      absurd (omega (arith, tmp_radix-last n r i hi last, mul_room (i * t i) q))
    where
      mul_room : (b q : ℕ) → b ≤ b * suc q
      mul_room b q = omega arith

  pub up : (f i y c rt : ℕ) → 0 < i → n < i + f → c ≡ i * y → 0 < c → c < n → Up n r f i c rt
  up f i zero c rt hi room at_c positive lt = absurd (omega arith)
  up zero i (suc y) c rt hi room at_c positive lt = absurd (omega (arith, mul-le-mul_right y hi))
  up (suc f) i (suc y) c rt hi room at_c positive lt =
      let le : i ≤ n = omega (arith, mul-le-mul_right y hi) in
      elim (ℕ_discrete (level_root n r c i) c) [
        | no ne ↦ Up-break f i (suc y) c rt hi le room at_c lt ne
        | yes pass ↦
            let q = suc y / t i in
            let at_q : c ≡ i * (t i * q) = sym pass ∙ root_at n r two i (suc y) c hi at_c in
            elim (dec_lt n (i * r)) [
              | yes last ↦ absurd (omega (arith, last_zero i q c hi last at_q lt))
              | no again ↦
                  let more : i * r ≤ n = omega arith in
                  let whole : t i ≡ r = tmp_radix-whole n r i hi more in
                  Up-later f i q c rt hi le more at_q (
                    up f (i * r) q c c (omega (arith, grows i r hi two))
                      (omega (arith, grows i r hi two)) (at_q ∙ rw whole (omega arith)) positive lt)
            ]
      ]
