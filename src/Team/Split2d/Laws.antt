-- ===== src/Team/Split2d/Laws.antt =====
-- The teams of `shmem_internal_team_split_2d` of src/shmem_team.c along each axis.
use sandia_shmem.Base.{ap, ℕ, ◌+◌, ◌*◌, ◌/◌, ◌%◌, ◌<◌, ◌≤◌, ◌≡◌, arith, dec_lt}
use native.Mathlib.Nat.{div-add-mod, mod-lt, mul-le-mul_right}
use sandia_shmem.Team.Split2d.{ysize}

module _ (size xr : ℕ) (positive : 0 < xr) where
  whole : xr * (size / xr) + size % xr ≡ size
  whole = div-add-mod size xr

  rest : size % xr < xr
  rest = mod-lt size positive

  mul_step : (k q : ℕ) → k < q → k * xr + xr ≤ q * xr
  mul_step k q h = omega (arith, mul-le-mul_right xr h)

  mul_mono : (k q : ℕ) → k ≤ q → k * xr ≤ q * xr
  mul_mono k q h = mul-le-mul_right xr h

  yteam_inside : (i k : ℕ) → i < xr → k < ysize size xr i → i + k * xr < size
  unfolding ysize
  yteam_inside i k hi hk =
      ground (arith, whole, rest, mul_step k (size / xr), mul_mono k (size / xr))

  yteam_covers : (j : ℕ) → j < size → j / xr < ysize size xr (j % xr)
  unfolding ysize
  yteam_covers j h = ground (
    arith,
    whole,
    rest,
    div-add-mod j xr,
    mod-lt j positive,
    mul_step (size / xr) (j / xr),
    mul_mono (size / xr) (j / xr),
  )

  -- Two numbers of the grid are the same only at the same place of the same team.
  apart : (i k i' k' : ℕ) → k < xr → k' < xr → i * xr + k ≡ i' * xr + k' → (i ≡ i') × (k ≡ k')
  apart i k i' k' h h' e = elim (dec_lt i i') [
    | yes lt ↦ absurd (omega (arith, mul_step i i' lt, h, h', e))
    | no ge ↦ elim (dec_lt i' i) [
      | yes lt ↦ absurd (omega (arith, mul_step i' i lt, h, h', e))
      | no ge' ↦
          let same : i ≡ i' = omega (arith, ge, ge') in
          (same, omega (arith, e, ap (λ n. n * xr) same))
    ]
  ]

  -- For a positive xrange the y-axis teams partition the parent's numbers 0, …, size - 1: the k-th PE
  -- of team i is the PE numbered i + k * xrange, which lies in the parent, the PE numbered j stands in team
  -- j % xrange, at j / xrange, and no PE stands in two teams or at two places of one.
  pub yteam_partition :
      ((i k : ℕ) → i < xr → k < ysize size xr i → i + k * xr < size)
      × ((j : ℕ)
          → j < size
          → (j % xr < xr) × (j / xr < ysize size xr (j % xr)) × (j % xr + j / xr * xr ≡ j))
      × ((i k i' k' : ℕ) → i < xr → i' < xr → i + k * xr ≡ i' + k' * xr → (i ≡ i') × (k ≡ k'))
  yteam_partition = (
    yteam_inside,
    (λ j h. (mod-lt j positive, yteam_covers j h, omega (arith, div-add-mod j xr))),
    (λ i k i' k' h h' e. let (a, b) = apart k i k' i' h h' (omega (arith, e)) in (b, a)),
  )
