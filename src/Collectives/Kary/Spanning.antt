-- ===== src/Collectives/Kary/Spanning.antt =====
-- The parents and children that the PEs of an active set compute in `shmem_internal_build_kary_tree` of
-- src/collectives.c, side by side.
use sandia_shmem.Base.{
  ℕ, ◌+◌, ◌-◌, ◌*◌, ◌/◌, ◌<◌, ◌≤◌, ◌≡◌, ◌∙◌, ap, map, arith, Elem, Elem-map, Elem-map_inv, dec_lt,
}
use mathlib.Core.Path.{subst}
use sandia_shmem.Base.Int.{ℤ, pos, pos_part}
use native.Mathlib.Nat.{div-eq_of_lt-le, div-add-mod, mod-lt, div-le_self, zero-div}
use sandia_shmem.Collectives.Kary.{Tree, parent, children, children_from}
use sandia_shmem.Collectives.Kary.Laws.{
  InRange, at_id, id_of-at, parent-at, child_ids, children_from-at, child_ids_iff,
}

module _ {t : Tree} {r s d z root : ℕ} (g : InRange t r s d z root) where
  open g use {two, inside}

  pub children-at :
      (id : ℕ)
      → id < z
      → children t (pos (at_id g id)) ≡ map (λ c. pos (at_id g c)) (child_ids g id r 1)
  unfolding children
  children-at id h =
      rw (id_of-at g id h)
        (ap (λ n. children_from t (pos id) (pos_part n) 1) g.radix ∙ children_from-at g id r 1)

  -- A distance between r * id + 1 and r * id + r has its parent at distance id.
  pub parent_id : (id c : ℕ) → r * id + 1 ≤ c → c < r * id + 1 + r → (c - 1) / r ≡ id
  parent_id id c lo hi = div-eq_of_lt-le r (omega arith) (omega arith)

  -- Every PE of the set is at one distance from the root below the size.
  pub at_id-onto : (k : ℕ) → k < z → (id : ℕ) × (id < z) × (at_id g id ≡ s + k * d)
  at_id-onto k h = elim (dec_lt k root) [
    | yes lt ↦ (k + z - root, omega arith, ap (λ x. s + x * d) (ground arith))
    | no ge ↦ (k - root, omega arith, ap (λ x. s + x * d) (ground arith))
  ]

  -- For a radix of 2 or more: each child of the PE at distance id from the root is a PE of the set, at
  -- a greater distance below the size, and computes that PE as its parent.
  pub children-parent :
      (id : ℕ) (c : ℤ)
      → id < z
      → Elem c (children t (pos (at_id g id)))
      → (cid : ℕ) × (c ≡ pos (at_id g cid))
        × (id < cid)
        × (cid < z)
        × (parent t c ≡ pos (at_id g id))
  children-parent id c h m =
      let (cid, e, n) =
        Elem-map_inv (λ x. pos (at_id g x)) c (child_ids g id r 1)
          (subst (Elem c) (children-at id h) m) in
      let (lt, lo, hi) = (child_ids_iff g id r 1 cid).0 n in
      (
        cid,
        e,
        grind arith,
        lt,
        rw e (parent-at g cid lt ∙ ap (λ x. pos (at_id g x)) (parent_id id cid lo hi)),
      )

  -- For a radix of 2 or more: the root is its own parent, and every other PE of the set is among the
  -- children of its parent, which is a PE of the set at a smaller distance from the root.
  pub parent-children :
      (parent t (pos (at_id g 0)) ≡ pos (at_id g 0))
      × ((id : ℕ)
          → 0 < id
          → id < z
          → (p : ℕ) × (p < id)
            × (parent t (pos (at_id g id)) ≡ pos (at_id g p))
            × Elem (pos (at_id g id)) (children t (parent t (pos (at_id g id)))))
  parent-children = (
    parent-at g 0 (omega arith) ∙ ap (λ x. pos (at_id g x)) (zero-div r),
    λ id positive h.
        let p = (id - 1) / r in
        let p_lt : p < id = omega (arith, div-le_self (id - 1) r) in
        let listed : Elem id (child_ids g p r 1) = (child_ids_iff g p r 1 id).1 (
          h,
          omega (arith, div-add-mod (id - 1) r),
          omega (arith, div-add-mod (id - 1) r, mod-lt (id - 1) {m = r} (omega arith)),
        ) in
        (
          p,
          p_lt,
          parent-at g id h,
          rw (parent-at g id h, children-at p (omega arith))
              (Elem-map (λ x. pos (at_id g x)) id (child_ids g p r 1) listed),
        ),
  )
