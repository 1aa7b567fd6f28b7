-- ===== src/Team/Stride/Laws.antt =====
-- The stride that `check_for_linear_stride` of src/shmem_team.c finds for the PEs that it is given.
use sandia_shmem.Base.{ℕ, ◌+◌, ◌-◌, ◌*◌, ◌%◌, ◌<◌, ◌≤◌, ◌≡◌, refl, ◌∙◌, some, arith, ap}
use sandia_shmem.Base.Int.{pos, ◌+ℤ◌, ◌-ℤ◌, ◌%ℤ◌}
use sandia_shmem.ActiveSet.{minus_one, pe_in_active_set}
use sandia_shmem.ActiveSet.Laws.{pe_in_active_set-minus_one_iff}
use native.Mathlib.Nat.{mul-mod_right}
use sandia_shmem.Team.Stride.{Triple, unset, check_for_linear_stride}

abbrev triple : ℕ → ℕ → ℕ → Triple
triple s d z = record { start = pos s; stride = pos d; size = pos z }

abbrev one_pe : ℕ → Triple
one_pe s = record { start = pos s; stride = minus_one; size = pos 1 }

insert_first : (p : ℕ) → check_for_linear_stride (pos p) unset ≡ some (one_pe p)
unfolding check_for_linear_stride ◌+ℤ◌
insert_first p = refl

insert_second :
    (p q : ℕ) → p < q → check_for_linear_stride (pos q) (one_pe p) ≡ some (triple p (q - p) 2)
unfolding check_for_linear_stride ◌+ℤ◌ ◌-ℤ◌
insert_second p q lt = ground arith

insert_later :
    (s d z r : ℕ)
    → s ≤ r
    → (r - s) % d ≡ 0
    → check_for_linear_stride (pos r) (triple s d z) ≡ some (triple s d (z + 1))
unfolding check_for_linear_stride ◌+ℤ◌ ◌-ℤ◌ ◌%ℤ◌
insert_later s d z r le e = ground arith

-- A PE that continues the progression <s, d, z> makes it <s, d, z + 1>.
pub insert_next :
    (s d z : ℕ)
    → 0 < d
    → check_for_linear_stride (pos (s + d * z)) (triple s d z) ≡ some (triple s d (z + 1))
insert_next s d z positive =
    insert_later s d z (s + d * z) (omega arith) (ap (λ x. x % d) (omega arith) ∙ mul-mod_right d z)

-- Three PEs p < q < r whose second gap is another multiple of the first are accepted as <p, q - p, 3>,
-- a set that does not hold r.
pub check_for_linear_stride_gap :
    (p q r k : ℕ)
    → p < q
    → r ≡ p + (q - p) * k
    → 2 < k
    → (check_for_linear_stride (pos p) unset ≡ some (one_pe p))
      × (check_for_linear_stride (pos q) (one_pe p) ≡ some (triple p (q - p) 2))
      × (check_for_linear_stride (pos r) (triple p (q - p) 2) ≡ some (triple p (q - p) 3))
      × (pe_in_active_set (pos r) (pos p) (pos (q - p)) (pos 3) ≡ minus_one)
check_for_linear_stride_gap p q r k lt e gap = (
  insert_first p,
  insert_second p q lt,
  insert_later p (q - p) 2 r (omega arith)
      (ap (λ x. x % (q - p)) (omega arith) ∙ mul-mod_right (q - p) k),
  (pe_in_active_set-minus_one_iff r p (q - p) 3 (omega arith)).1 (λ i hi same. grind arith),
)
