-- ===== src/Exchange/Peers.antt =====
-- The peers of the loops of `shmem_internal_alltoall` and `_alltoalls`, src/collectives.c: every PE of the set, starting
-- with the next one and ending with the PE itself.
use mathlib.Core.Path.{subst}
use sandia_shmem.Base.{
  ℕ, zero, suc, ◌+◌, ◌-◌, ◌*◌, ◌<◌, ◌≤◌, ◌≡◌, ◌≢◌, ◌↔◌, refl, ap, sym, ◌∙◌, inl, inr, true, false,
  Elem, arith, ◌==◌, ℕ_discrete, ==_iff, dec_lt,
}
use sandia_shmem.Base.Int.{pos_part}
use native.Mathlib.Nat.{mul-le-mul_left}
use sandia_shmem.Collectives.Circular.{circular_iter_next_lem}
use sandia_shmem.Collectives.Kary.Laws.{fold, mod-fold}
use sandia_shmem.Exchange.{next_peer, peers_from, peers}

not_same : (a b : ℕ) → a ≢ b → (a == b) ≡ false
not_same a b other = ground arith

module _ (s d z : ℕ) (positive : 0 < d) where
  -- The PE of index `k`.
  abbrev pub at_index : ℕ → ℕ
  at_index k = s + d * k

  at_index-lt : (a b : ℕ) → a < b → at_index a < at_index b
  at_index-lt a b lt =
      let more : d * (a + 1) ≤ d * b = mul-le-mul_left d (omega arith) in omega (arith, more)

  pub at_index-injective : (a b : ℕ) → at_index a ≡ at_index b → a ≡ b
  at_index-injective a b e = elim (ℕ_discrete a b) [
    | yes same ↦ same
    | no other ↦ elim (dec_lt a b) [
      | yes lt ↦ absurd (omega (arith, e, at_index-lt a b lt))
      | no ge ↦ absurd (omega (arith, e, at_index-lt b a (omega (arith, other, ge))))
    ]
  ]

  next_peer-at : (k : ℕ) → k < z → next_peer (at_index k) s d z ≡ at_index (fold (k + 1) z)
  unfolding next_peer
  next_peer-at k lt =
      ap pos_part (circular_iter_next_lem s d z k positive lt)
      ∙ ap at_index (mod-fold (k + 1) z (omega arith))

  -- From round `i` of PE `k` on, the peers are those of the indices k + 1 + i, …, k + z, counted round the set.
  peers_from_iff :
      (k left i c : ℕ)
      → k < z
      → i + suc left ≡ z
      → Elem c
          (peers_from (suc left) s d z (at_index (fold (k + 1) z)) (at_index (fold (k + 1 + i) z)))
        ↔ ((j : ℕ) × (i ≤ j) × (j < z) × (c ≡ at_index (fold (k + 1 + j) z)))
  unfolding peers_from
  peers_from_iff k zero i c lt room =
      let at_end : fold (k + 1 + i) z ≡ k = ground arith in
      let back : next_peer (at_index (fold (k + 1 + i) z)) s d z ≡ at_index (fold (k + 1) z) =
        ap (λ x. next_peer (at_index x) s d z) at_end ∙ next_peer-at k lt in
      let hit : (at_index (fold (k + 1) z) == at_index (fold (k + 1) z)) ≡ true =
        (==_iff _ _).1 refl in
      rw back (
        rw hit (
          (λ m. elim m [
            | inl e ↦ (i, omega arith, omega (arith, room), e)
            | inr nothing ↦ absurd nothing
          ]),
          (λ (j, lo, hi, e).
              let same : j ≡ i = omega (arith, lo, hi, room) in
              inl (e ∙ ap (λ x. at_index (fold (k + 1 + x) z)) same)),
        ))
  peers_from_iff k (suc left) i c lt room =
      let ih = peers_from_iff k left (i + 1) c lt (omega (arith, room)) in
      let inside : fold (k + 1 + i) z < z = ground arith in
      let on : fold (fold (k + 1 + i) z + 1) z ≡ fold (k + 1 + (i + 1)) z = ground (arith, room) in
      let following : next_peer (at_index (fold (k + 1 + i) z)) s d z
          ≡ at_index (fold (k + 1 + (i + 1)) z) =
        next_peer-at (fold (k + 1 + i) z) inside ∙ ap at_index on in
      let other : fold (k + 1 + (i + 1)) z ≢ fold (k + 1) z = λ e. ground (arith, room, e) in
      let miss : (at_index (fold (k + 1 + (i + 1)) z) == at_index (fold (k + 1) z)) ≡ false =
        not_same (at_index (fold (k + 1 + (i + 1)) z)) (at_index (fold (k + 1) z))
          (λ e. other (at_index-injective _ _ e)) in
      rw following (
        rw miss (
          (λ m. elim m [
            | inl e ↦ (i, omega arith, omega (arith, room), e)
            | inr later ↦ let (j, lo, hi, e) = ih.0 later in (j, omega (arith, lo), hi, e)
          ]),
          (λ (j, lo, hi, e). elim (ℕ_discrete j i) [
            | yes same ↦ inl (e ∙ ap (λ x. at_index (fold (k + 1 + x) z)) same)
            | no more ↦ inr (ih.1 (j, omega (arith, lo, more), hi, e))
          ]),
        ))

  -- The peers of the PE of index `k` are all PEs of the set.
  pub peers_iff :
      (k c : ℕ) → k < z → Elem c (peers s d z (at_index k)) ↔ ((j : ℕ) × (j < z) × (c ≡ at_index j))
  unfolding peers
  peers_iff k c lt =
      let same : z ≡ suc (z - 1) = omega (arith, lt) in
      let base = peers_from_iff k (z - 1) 0 c lt (omega (arith, lt)) in
      let zero_on : k + 1 + 0 ≡ k + 1 = omega arith in
      let list : peers s d z (at_index k)
          ≡ peers_from (suc (z - 1)) s d z (at_index (fold (k + 1) z))
              (at_index (fold (k + 1 + 0) z)) =
        ap (λ x. peers_from z s d z x x) (next_peer-at k lt)
        ∙ ap (λ n. peers_from n s d z (at_index (fold (k + 1) z)) (at_index (fold (k + 1) z))) same
        ∙ ap (λ n. peers_from (suc (z - 1)) s d z (at_index (fold (k + 1) z)) (at_index (fold n z)))
            (sym zero_on) in
      (
        (λ m.
            let (j, lo, hi, e) = base.0 (subst (Elem c) list m) in
            (fold (k + 1 + j) z, ground (arith, lt, hi), e)),
        (λ (j, hi, e). subst (Elem c) (sym list) (
            base.1 (elim (dec_lt k j) [
              | yes up ↦ (
                j - (k + 1),
                omega arith,
                omega (arith, hi),
                e ∙ ap at_index (ground (arith, hi, up)),
              )
              | no down ↦ (
                j + z - (k + 1),
                omega arith,
                omega (arith, hi, down, lt),
                e ∙ ap at_index (ground (arith, hi, down, lt)),
              )
            ]))),
      )
