-- ===== src/Team/Reduce.antt =====
-- What the reductions of src/shmem_team.c give: `shmem_internal_op_to_all` over an active set, with
-- SHM_INTERNAL_BAND on the bytes of `psync_pool_avail` and SHM_INTERNAL_MAX on `team_ret_val`. Every
-- member receives the combination of all members' values, here in the order of their indices.
pub mod Laws
use Prim.Native.Nat.{bit_and, max}
use sandia_shmem.Base.{ℕ, zero, suc, ◌+◌, ◌*◌, ◌-◌, List, [], ◌∷◌}

-- The values of the members 0, …, `n` of an active set, combined from the first on.
unfoldable pub fold_set {ℓ} : {A : Type ℓ} → (A → A → A) → (ℕ → A) → ℕ → A
fold_set op value zero = value 0
fold_set op value (suc n) = op (fold_set op value n) (value (suc n))

-- `&` on each byte
unfoldable pub band : List ℕ → List ℕ → List ℕ
band [] ys = []
band (x ∷ xs) [] = []
band (x ∷ xs) (y ∷ ys) = bit_and x y ∷ band xs ys

-- The two reductions over the PEs start + i * stride, for i below a positive `size`.
unfoldable pub reduce_band : ℕ → ℕ → ℕ → (ℕ → List ℕ) → List ℕ
unfolding fold_set band
reduce_band start stride size value = fold_set band (λ i. value (start + i * stride)) (size - 1)

unfoldable pub reduce_max : ℕ → ℕ → ℕ → (ℕ → ℕ) → ℕ
unfolding fold_set
reduce_max start stride size value = fold_set max (λ i. value (start + i * stride)) (size - 1)
