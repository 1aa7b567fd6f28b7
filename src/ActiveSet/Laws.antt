-- ===== src/ActiveSet/Laws.antt =====
-- `shmem_internal_pe_in_active_set` of src/shmem_internal.h against the numbering of an active set.
use sandia_shmem.Base.{
  ℕ, ◌+◌, ◌-◌, ◌*◌, ◌/◌, ◌%◌, ◌<◌, ◌≡◌, ◌≢◌, ◌↔◌, arith, ltb, ◌==◌, not, ◌||◌, if◌then◌else◌,
}
use native.Mathlib.Nat.{mul-div_cancel_left, mul-mod_right, div-add-mod}
use sandia_shmem.Base.Int.{ℤ, pos, ◌+ℤ◌, ◌-ℤ◌, ◌*ℤ◌, ◌/ℤ◌, ◌%ℤ◌}
use sandia_shmem.ActiveSet.{minus_one, pe_in_active_set, team_pe}

-- The same on numbers, which is what the code computes when no argument is negative.
abbrev pub index_in : ℕ → ℕ → ℕ → ℕ → ℤ
index_in g s d z =
    if ltb g s || not ((g - s) % d == 0) || not (ltb ((g - s) / d) z)
    then minus_one
    else pos ((g - s) / d)

pub pe_in_active_set-pos :
    (g s d z : ℕ) → pe_in_active_set (pos g) (pos s) (pos d) (pos z) ≡ index_in g s d z
unfolding pe_in_active_set ◌-ℤ◌ ◌/ℤ◌ ◌%ℤ◌
pe_in_active_set-pos g s d z = ground arith

pub team_pe-pos : (s d i : ℕ) → team_pe (pos s) (pos d) (pos i) ≡ pos (s + d * i)
unfolding team_pe ◌+ℤ◌ ◌*ℤ◌
team_pe-pos s d i = ground arith

mul_div : (d i : ℕ) → 0 < d → (d * i / d ≡ i) × (d * i % d ≡ 0)
mul_div d i h = (mul-div_cancel_left i h, mul-mod_right d i)

-- With a positive stride, PE `g` gets index `i` in the active set <s, d, z> exactly when it is the
-- set's i-th PE, s + d * i, and i is below the size z.
pub pe_in_active_set_iff :
    (g s d z i : ℕ)
    → 0 < d
    → (pe_in_active_set (pos g) (pos s) (pos d) (pos z) ≡ pos i) ↔ ((g ≡ s + d * i) × (i < z))
pe_in_active_set_iff g s d z i h = (
  (λ e. ground (arith, pe_in_active_set-pos g s d z, div-add-mod (g - s) d)),
  (λ p. ground (arith, pe_in_active_set-pos g s d z, mul_div d i h)),
)

-- With a positive stride the result is -1 exactly when the PE is none of the set's PEs.
pub pe_in_active_set-minus_one_iff :
    (g s d z : ℕ)
    → 0 < d
    → (pe_in_active_set (pos g) (pos s) (pos d) (pos z) ≡ minus_one)
      ↔ ((i : ℕ) → i < z → g ≢ s + d * i)
pe_in_active_set-minus_one_iff g s d z h = (
  (λ e i lt q. ground (arith, pe_in_active_set-pos g s d z, mul_div d i h)),
  (λ out. ground (arith, pe_in_active_set-pos g s d z, div-add-mod (g - s) d, out ((g - s) / d))),
)
