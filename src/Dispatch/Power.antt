-- ===== src/Dispatch/Power.antt =====
-- The test for a power of two in `shmem_internal_fcollect` of src/shmem_collectives.h.
use Prim.Native.Nat.{min, bit_and, bit_and-bitwise, ◌^◌}
use native.Mathlib.Nat.{pow-suc}
use mathlib.Core.Path.{subst}
use sandia_shmem.Base.{
  ℕ, zero, suc, ◌+◌, ◌-◌, ◌*◌, ◌/◌, ◌%◌, ◌<◌, ◌≤◌, ◌≡◌, ◌≢◌, ◌↔◌, refl, ap, sym, ◌∙◌, inl, inr,
  Bool-cases, true, false, some, arith, ◌==◌, ℕ_discrete, ==_iff,
}
use sandia_shmem.Base.And.{and_rounds}
use sandia_shmem.Sync.{CollType, auto, linear, tree, dissem, ring, recdbl}
use sandia_shmem.Dispatch.{fcollect, fcollect_recdbl}

abbrev pub IsPower : ℕ → Type 0
IsPower z = (k : ℕ) × (z ≡ 2 ^ k)

and_rounds_step :
    (n x y : ℕ)
    → and_rounds (suc n) (suc x) y ≡ and_rounds n (suc x / 2) (y / 2) * 2 + min (suc x % 2) (y % 2)
and_rounds_step n x y = omega arith

and_rounds_zero : (n y : ℕ) → and_rounds n 0 y ≡ 0
and_rounds_zero zero y = refl
and_rounds_zero (suc n) y = refl

and_rounds_self : (n x : ℕ) → x ≤ n → and_rounds n x x ≡ x
and_rounds_self n zero h = and_rounds_zero n 0
and_rounds_self zero (suc x) h = absurd (omega arith)
and_rounds_self (suc n) (suc x) h =
    omega (arith, and_rounds_step n x (suc x), and_rounds_self n (suc x / 2) (omega arith))

pow_double : (k : ℕ) → 2 ^ suc k ≡ 2 * 2 ^ k
pow_double k = omega (arith, pow-suc 2 k)

even-IsPower : (w k : ℕ) → 2 * w ≡ 2 ^ k → IsPower w
even-IsPower w zero e = let one : 2 * w ≡ 1 = e in absurd (omega (arith, one))
even-IsPower w (suc k) e = (k, omega (arith, e, pow_double k))

odd_power : (z k : ℕ) → z % 2 ≢ 0 → z ≡ 2 ^ k → z ≡ 1
odd_power z zero odd e = e
odd_power z (suc k) odd e = absurd (omega (arith, odd, e, pow_double k))

IsPower-double_iff : (w : ℕ) → IsPower w ↔ IsPower (2 * w)
IsPower-double_iff w =
    ((λ (k, e). (suc k, omega (arith, e, pow_double k))), (λ (k, e). even-IsPower w k e))

twice_zero : {a : ℕ} → a * 2 ≡ 0 → a ≡ 0
twice_zero e = omega (arith, e)

IsPower-rounds : (n z : ℕ) → 0 < z → z ≤ n → (and_rounds n z (z - 1) ≡ 0) ↔ IsPower z
IsPower-rounds n zero h le = absurd (omega arith)
IsPower-rounds zero (suc x) h le = absurd (omega arith)
IsPower-rounds (suc n) (suc x) h le = elim (ℕ_discrete (suc x % 2) 0) [
  | yes even ↦
      let w = suc x / 2 in
      let ih = IsPower-rounds n w (omega (arith, even)) (omega (arith, le)) in
      let back : and_rounds (suc n) (suc x) (suc x - 1) ≡ and_rounds (suc n) (suc x) x =
        ap (and_rounds (suc n) (suc x)) (omega arith) in
      let step : and_rounds (suc n) (suc x) (suc x - 1) ≡ and_rounds n w (w - 1) * 2 =
        back
        ∙ and_rounds_step n x x
        ∙ (let half : x / 2 ≡ w - 1 = omega (arith, even) in rw half (omega (arith, even))) in
      let double : suc x ≡ 2 * w = omega (arith, even) in
      (
        (λ e.
            let none_now : and_rounds n w (w - 1) ≡ 0 = twice_zero (sym step ∙ e) in
            subst IsPower (sym double) ((IsPower-double_iff w).0 (ih.0 none_now))),
        (λ p.
            let none_now = ih.1 ((IsPower-double_iff w).1 (subst IsPower double p)) in
            step ∙ ap (λ y. y * 2) none_now),
      )
  | no odd ↦
      let w = suc x / 2 in
      let back : and_rounds (suc n) (suc x) (suc x - 1) ≡ and_rounds (suc n) (suc x) x =
        ap (and_rounds (suc n) (suc x)) (omega arith) in
      let step : and_rounds (suc n) (suc x) (suc x - 1) ≡ w * 2 =
        back
        ∙ and_rounds_step n x x
        ∙ (let half : x / 2 ≡ w = omega (arith, odd) in
            rw half (omega (arith, odd, and_rounds_self n w (omega (arith, le))))) in
      (
        (λ e. let none_now : w ≡ 0 = twice_zero (sym step ∙ e) in (0, omega (arith, none_now))),
        (λ (k, e).
            let none_now : w ≡ 0 = omega (arith, odd_power (suc x) k odd e) in
            step ∙ ap (λ y. y * 2) none_now),
      )
]

-- On a set of at least one PE, fcollect runs its recursive doubling exactly when its type asks for it and the number of
-- PEs is a power of two, which that routine relies on.
pub fcollect_recdbl_iff :
    (type : CollType) (pe_size : ℕ)
    → 0 < pe_size
    → (fcollect type pe_size ≡ some fcollect_recdbl) ↔ ((type ≡ recdbl) × IsPower pe_size)
unfolding fcollect
fcollect_recdbl_iff auto pe_size h = (λ e. cc, λ (t, p). cc)
fcollect_recdbl_iff linear pe_size h = (λ e. cc, λ (t, p). cc)
fcollect_recdbl_iff tree pe_size h = (λ e. cc, λ (t, p). cc)
fcollect_recdbl_iff dissem pe_size h = (λ e. cc, λ (t, p). cc)
fcollect_recdbl_iff ring pe_size h = (λ e. cc, λ (t, p). cc)
fcollect_recdbl_iff recdbl pe_size h =
    let bits : bit_and pe_size (pe_size - 1) ≡ and_rounds pe_size pe_size (pe_size - 1) =
      bit_and-bitwise pe_size (pe_size - 1) in
    let power = IsPower-rounds pe_size pe_size h (omega arith) in
    elim (Bool-cases (bit_and pe_size (pe_size - 1) == 0)) [
      | inl on ↦
          let zero_now : and_rounds pe_size pe_size (pe_size - 1) ≡ 0 =
            sym bits ∙ (==_iff _ 0).0 on in
          rw on ((λ _. (refl, power.0 zero_now)), (λ _. refl))
      | inr off ↦ rw off (
        (λ e. cc),
        (λ (t, p).
            let on : (bit_and pe_size (pe_size - 1) == 0) ≡ true =
              (==_iff _ 0).1 (bits ∙ power.1 p) in
            let f : false ≡ true = sym off ∙ on in absurd cc),
      )
    ]
