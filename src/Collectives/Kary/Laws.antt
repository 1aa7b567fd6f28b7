-- ===== src/Collectives/Kary/Laws.antt =====
-- The arithmetic of `shmem_internal_build_kary_tree` of src/collectives.c, in distances from the root.
use sandia_shmem.Base.{
  ℕ, zero, suc, ◌+◌, ◌-◌, ◌*◌, ◌/◌, ◌%◌, ◌<◌, ◌≤◌, ◌≡◌, inl, inr, refl, ◌∙◌, ap, List, map, Elem,
  ◌↔◌, [], ◌∷◌, if◌then◌else◌, ltb, arith, dec_lt, Bool-cases, IsDistinct,
}
use sandia_shmem.Base.Int.{
  pos, ◌+ℤ◌, ◌-ℤ◌, ◌*ℤ◌, ◌/ℤ◌, ◌%ℤ◌, +ℤ-pos, -ℤ-pos, *ℤ-pos, /ℤ-pos, %ℤ-pos,
}
use native.Mathlib.Nat.{
  mod-eq_of_lt, mod-eq-sub-mod, mul-div_cancel, div-eq_of_lt, zero-div, div-le_self, add_comm,
}
use sandia_shmem.Collectives.Kary.{Tree, my_id, parent, children_from}

-- The arguments in range: an active set <s, d, z>, a root among its indices, and a radix of 2 or more.
pub record InRange (t : Tree) (r s d z root : ℕ) : Type 0 where
  pub radix : t.radix ≡ pos r
  pub start : t.pe_start ≡ pos s
  pub stride : t.stride ≡ pos d
  pub size : t.pe_size ≡ pos z
  pub at_root : t.pe_root ≡ pos root
  pub two : 2 ≤ r
  pub positive : 0 < d
  pub inside : root < z

-- x % z for x below 2 z, the only case of the code.
abbrev pub fold : ℕ → ℕ → ℕ
fold x z = if ltb x z then x else x - z

pub mod-fold : (x z : ℕ) → x < z + z → x % z ≡ fold x z
mod-fold x z h = elim (dec_lt x z) [
  | yes lt ↦ ground (arith, mod-eq_of_lt {n = x} {m = z} lt)
  | no ge ↦ ground (
    arith,
    mod-eq-sub-mod {n = x} {m = z} (omega arith),
    mod-eq_of_lt {n = x - z} {m = z} (omega arith),
  )
]

-- C's (id - 1) / r is 0 at id = 0, because r is not 1.
quotient : (r id : ℕ) → 2 ≤ r → (pos id -ℤ pos 1) /ℤ pos r ≡ pos ((id - 1) / r)
unfolding ◌-ℤ◌ ◌/ℤ◌
quotient r zero h = ground (arith, div-eq_of_lt {n = 1} {m = r} h, zero-div r)
quotient r (suc id) h = ground arith

smaller : (r id : ℕ) → 2 ≤ r → (id - 1) / r ≤ id
smaller r id h = omega (arith, div-le_self (id - 1) r)

module _ {t : Tree} {r s d z root : ℕ} (g : InRange t r s d z root) where
  open g use {two, positive, inside}

  -- The index in the set of the PE whose distance from the root is `id`.
  abbrev pub index_at : ℕ → ℕ
  index_at id = fold (root + id) z

  -- The PE whose distance from the root is `id`.
  abbrev pub at_id : ℕ → ℕ
  at_id id = s + index_at id * d

  index-div : (id : ℕ) → (at_id id - s) / d ≡ index_at id
  index-div id = ap (λ x. x / d) (omega arith) ∙ mul-div_cancel (index_at id) positive

  index-back : (id : ℕ) → id < z → (index_at id + z - root) % z ≡ id
  index-back id h = ground (arith, mod-fold (index_at id + z - root) z, inside)

  -- `my_id` is the distance from the root.
  pub id_of-at : (id : ℕ) → id < z → my_id t (pos (at_id id)) ≡ pos id
  unfolding my_id
  id_of-at id h =
      rw (g.start, g.stride, g.size, g.at_root)
        (rw (-ℤ-pos (at_id id) s (omega arith), /ℤ-pos, index-div id, +ℤ-pos)
          (rw (-ℤ-pos (index_at id + z) root (omega arith), %ℤ-pos, index-back id h) refl))

  -- The PE that the code computes from a distance.
  at_id-code : (id : ℕ) → id < z → pos s +ℤ (pos (root + id) %ℤ pos z) *ℤ pos d ≡ pos (at_id id)
  at_id-code id h =
      rw (%ℤ-pos, *ℤ-pos, +ℤ-pos) (ap (λ x. pos (s + x * d)) (mod-fold (root + id) z (omega arith)))

  -- The parent of distance `id` is at distance (id - 1) / r, which is 0 at the root itself.
  pub parent-at : (id : ℕ) → id < z → parent t (pos (at_id id)) ≡ pos (at_id ((id - 1) / r))
  unfolding parent
  parent-at id h = rw (id_of-at id h) (
      rw (g.start, g.stride, g.size, g.at_root, g.radix)
        (rw (quotient r id two, +ℤ-pos)
          (rw (add_comm ((id - 1) / r) root)
            (at_id-code ((id - 1) / r) (omega (arith, smaller r id two))))))

  -- The children, by distance.
  pub child_ids : ℕ → ℕ → ℕ → List ℕ
  child_ids id zero i = []
  child_ids id (suc left) i =
      let rest = child_ids id left (i + 1) in
      if ltb (r * id + i) z then (r * id + i) ∷ rest else rest

  pub children_from-at :
      (id left i : ℕ)
      → children_from t (pos id) left i ≡ map (λ c. pos (at_id c)) (child_ids id left i)
  unfolding children_from child_ids
  children_from-at id zero i = refl
  children_from-at id (suc left) i =
      let ih = children_from-at id left (i + 1) in
      rw (g.radix, *ℤ-pos, +ℤ-pos)
        (rw (g.start, g.size, g.stride, g.at_root)
          (rw +ℤ-pos (elim (dec_lt (r * id + i) z) [
            | yes lt ↦ rw (at_id-code (r * id + i) lt) (ground (arith, ih))
            | no ge ↦ ground (arith, ih)
          ])))

  -- A distance c is listed exactly when it is r * id + k for a k of the rounds, and below z.
  pub child_ids_iff :
      (id left i c : ℕ)
      → (Elem c (child_ids id left i)) ↔ ((c < z) × (r * id + i ≤ c) × (c < r * id + i + left))
  unfolding child_ids
  child_ids_iff id zero i c = ((λ m. absurd m), (λ h. absurd (omega arith)))
  child_ids_iff id (suc left) i c =
      let ih = child_ids_iff id left (i + 1) c in
      elim (Bool-cases (ltb (r * id + i) z)) [
        | inl inside ↦ rw inside (
          (λ m. elim m [ inl e ↦ ground arith | inr n ↦ omega (arith, ih.0 n) ]),
          (λ h. elim (dec_lt (r * id + i) c) [
            | yes lt ↦ inr (ih.1 (omega arith))
            | no ge ↦ inl (omega arith)
          ]),
        )
        | inr outside ↦ rw outside ((λ m. omega (arith, ih.0 m)), (λ h. ih.1 (ground arith)))
      ]

  pub child_ids-IsDistinct : (id left i : ℕ) → IsDistinct (child_ids id left i)
  unfolding child_ids
  child_ids-IsDistinct id zero i = tt
  child_ids-IsDistinct id (suc left) i =
      let ih = child_ids-IsDistinct id left (i + 1) in
      elim (Bool-cases (ltb (r * id + i) z)) [
        | inl inside ↦
            rw inside ((λ m. omega (arith, (child_ids_iff id left (i + 1) (r * id + i)).0 m)), ih)
        | inr outside ↦ rw outside ih
      ]
