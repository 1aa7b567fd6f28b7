-- ===== src/Exchange/Elements.antt =====
-- The puts of `shmem_internal_alltoalls`, src/collectives.c: one for each element, each to a place of its own.
use mathlib.Core.Path.{subst}
use native.Mathlib.Nat.{mul-le-mul_right}
use sandia_shmem.Base.{
  ℕ, ◌+◌, ◌-◌, ◌*◌, ◌/◌, ◌<◌, ◌≤◌, ◌≡◌, refl, ap, sym, ◌∙◌, ◌⊎◌, inl, inr, true, List, [], ◌∷◌,
  Elem, zero, suc, Elem-left, Elem-right, Elem-append, ◌↔◌, arith, ℕ_discrete, ◌↔◌, suc,
  Elem-append, Elem-left, Elem-right,
}
use sandia_shmem.Comm.{Instr}
use sandia_shmem.Sync.Linear.{in_set}
use sandia_shmem.Exchange.{peers, elements_from, alltoalls_puts}
use sandia_shmem.Exchange.Peers.{at_index, at_index-injective, peers_iff}
use sandia_shmem.Exchange.Parts.{rank, member_index, block_parts, block_apart}
use sandia_shmem.Exchange.Delivery.{block}

-- The loop over the elements puts the `left` elements, one by one.
elements_from_iff :
    (left dst sst es o f peer : ℕ) (i : Instr)
    → Elem i (elements_from left dst sst es o f peer)
      ↔ ((e : ℕ) × (e < left) × (i ≡ block (o + e * (dst * es)) (f + e * (sst * es)) es peer))
unfolding elements_from
elements_from_iff zero dst sst es o f peer i =
    ((λ m. absurd m), (λ (e, lt, q). absurd (omega (arith, lt))))
elements_from_iff (suc left) dst sst es o f peer i =
    let ih = elements_from_iff left dst sst es (o + dst * es) (f + sst * es) peer i in
    (
      (λ m. elim m [
        | inl q ↦ (0, omega arith, q ∙ block_at (omega arith) (omega arith))
        | inr later ↦
            let (e, lt, q) = ih.0 later in
            (e + 1, omega (arith, lt), q ∙ block_at (omega arith) (omega arith))
      ]),
      (λ (e, lt, q). elim (ℕ_discrete e 0) [
        | yes first ↦
            let none_before : e ≡ 0 = first in
            inl (
              q
              ∙ ap (λ x. block (o + x * (dst * es)) (f + x * (sst * es)) es peer) none_before
              ∙ block_at (omega arith) (omega arith))
        | no more ↦
            let same : e ≡ (e - 1) + 1 = omega (arith, more) in
            inr (
              ih.1 (
                e - 1,
                omega (arith, lt, more),
                q
                    ∙ ap (λ x. block (o + x * (dst * es)) (f + x * (sst * es)) es peer) same
                    ∙ block_at (omega arith) (omega arith),
              ))
      ]),
    )
  where
    block_at : {a b c g : ℕ} → a ≡ b → c ≡ g → block a c es peer ≡ block b g es peer
    block_at {a} {b} {c} {g} p q = ap (λ x. block x c es peer) p ∙ ap (λ x. block b x es peer) q

module _ (dst sst es nelems s d z : ℕ) (positive : 0 < d) where
  -- The put of element `e` of the block of PE index `k` for PE index `j`.
  abbrev pub element : ℕ → ℕ → ℕ → Instr
  element k j e =
      block ((k * nelems + e) * (dst * es)) ((j * nelems + e) * (sst * es)) es
        (at_index s d z positive j)

  puts_iff :
      (k : ℕ) (cs : List ℕ) (i : Instr)
      → ((c : ℕ) → Elem c cs → (j : ℕ) × (j < z) × (c ≡ at_index s d z positive j))
      → (Elem i (alltoalls_puts dst sst es nelems s d (at_index s d z positive k) cs)) ↔ (
          (j : ℕ) × (e : ℕ) × Elem (at_index s d z positive j) cs
          × (e < nelems)
          × (i ≡ element k j e))
  unfolding alltoalls_puts
  puts_iff k [] i inside = ((λ m. absurd m), (λ (j, e, m, lt, q). absurd m))
  puts_iff k (c ∷ cs) i inside =
      let ih = puts_iff k cs i (λ x m. inside x (inr m)) in
      let (jc, jcz, eq_c) = inside c (inl refl) in
      let own =
        elements_from_iff nelems dst sst es
          ((at_index s d z positive k - s) / d * nelems * dst * es)
          ((c - s) / d * nelems * sst * es) c i in
      let rank_k = rank s d z positive k in
      let at_c : (j e : ℕ)
          → c ≡ at_index s d z positive j
          → block ((at_index s d z positive k - s) / d * nelems * dst * es + e * (dst * es))
              ((c - s) / d * nelems * sst * es + e * (sst * es)) es c
            ≡ element k j e =
        λ j e q.
          let rank_c : (c - s) / d ≡ j = ap (λ x. (x - s) / d) q ∙ rank s d z positive j in
          rw (rank_k, rank_c, q)
            (ap
                (λ x.
                  block x (j * nelems * sst * es + e * (sst * es)) es (at_index s d z positive j))
                (omega arith)
              ∙ ap (λ x. block ((k * nelems + e) * (dst * es)) x es (at_index s d z positive j))
                  (omega arith)) in
      (
        (λ m. elim (Elem-append i _ _ m) [
          | inl here_now ↦
              let (e, lt, q) = own.0 here_now in (jc, e, inl (sym eq_c), lt, q ∙ at_c jc e eq_c)
          | inr later ↦ let (j, e, mem, lt, q) = ih.0 later in (j, e, inr mem, lt, q)
        ]),
        (λ (j, e, mem, lt, q). elim mem [
          | inl same ↦ Elem-left i _ _ (own.1 (e, lt, q ∙ sym (at_c j e (sym same))))
          | inr later ↦ Elem-right i _ _ (ih.1 (j, e, later, lt, q))
        ]),
      )

  pub all_puts_iff :
      (k : ℕ) (i : Instr)
      → k < z
      → (Elem i (
          alltoalls_puts dst sst es nelems s d
            (at_index s d z positive k)
            (peers s d z (at_index s d z positive k))))
        ↔ ((j : ℕ) × (e : ℕ) × (j < z) × (e < nelems) × (i ≡ element k j e))
  all_puts_iff k i kz =
      let base =
        puts_iff k (peers s d z (at_index s d z positive k)) i
          (λ c m. (peers_iff s d z positive k c kz).0 m) in
      (
        (λ m.
            let (j, e, mem, lt, q) = base.0 m in
            let (jj, jjz, same) = (peers_iff s d z positive k _ kz).0 mem in
            let same_j : j ≡ jj = at_index-injective s d z positive j jj same in
            (j, e, omega (arith, jjz, same_j), lt, q)),
        (λ (j, e, jz, lt, q).
            base.1 (j, e, (peers_iff s d z positive k _ kz).1 (j, jz, refl), lt, q)),
      )

-- The blocks of two indices, and two places in them, are one only if both are.
index_unique : (n k l e g : ℕ) → e < n → g < n → k * n + e ≡ l * n + g → (k ≡ l) × (e ≡ g)
index_unique n k l e g en gn q = elim (ℕ_discrete k l) [
  | yes same ↦ (same, let at : k * n ≡ l * n = ap (λ x. x * n) same in omega (arith, q, at))
  | no other ↦ elim (block_apart n k l e other en) [
    | inl below ↦ absurd (omega (arith, q, below))
    | inr above ↦ absurd (omega (arith, q, above, gn))
  ]
]

module _ (dst sst es nelems s d z : ℕ) (positive : 0 < d) (apart : 0 < dst) where
  wide : es ≤ dst * es
  wide =
      let more : 1 * es ≤ dst * es = mul-le-mul_right es (omega (arith, apart)) in
      omega (arith, more)

  pub only_element :
      (k j e y q o f l : ℕ)
      → k < z
      → j < z
      → e < nelems
      → y < es
      → in_set s d z q ≡ true
      → Elem
          (block o f l (at_index s d z positive j))
          (alltoalls_puts dst sst es nelems s d q (peers s d z q))
      → ((q ≡ at_index s d z positive k)
          × (block o f l (at_index s d z positive j)
              ≡ element dst sst es nelems s d z positive k j e))
        ⊎ ((k * nelems + e) * (dst * es) + y < o)
        ⊎ (o + l ≤ (k * nelems + e) * (dst * es) + y)
  only_element k j e y q o f l kz jz lt ly member mem =
      let (kk, kkz, eq_q) = member_index s d z positive q member in
      let (jj, g, jjz, gn, shape) =
        (all_puts_iff dst sst es nelems s d z positive kk (block o f l (at_index s d z positive j))
            kkz).0
          (subst
            (λ x.
              Elem (block o f l (at_index s d z positive j))
                (alltoalls_puts dst sst es nelems s d x (peers s d z x)))
            eq_q mem) in
      let (same_o, same_l, same_p) = block_parts shape in
      let same_j : jj ≡ j = at_index-injective s d z positive jj j (sym same_p) in
      elim (ℕ_discrete (k * nelems + e) (kk * nelems + g)) [
        | yes same ↦
            let (same_k, same_e) = index_unique nelems k kk e g lt gn same in
            inl (
              eq_q ∙ ap (at_index s d z positive) (sym same_k),
              shape
                  ∙ ap (λ x. element dst sst es nelems s d z positive x jj g) (sym same_k)
                  ∙ ap (λ x. element dst sst es nelems s d z positive k x g) same_j
                  ∙ ap (element dst sst es nelems s d z positive k j) (sym same_e),
            )
        | no other ↦
            inr
              (elim (block_apart (dst * es) (k * nelems + e) (kk * nelems + g) y other
                (omega (arith, ly, wide))) [
                  | inl below ↦ inl (omega (arith, below, same_o))
                  | inr above ↦ inr (omega (arith, above, same_o, same_l, wide))
                ])
      ]

module _ (dst sst es nelems s d : ℕ) where
  elements-blocks :
      (left o f peer : ℕ) (i : Instr)
      → Elem i (elements_from left dst sst es o f peer)
      → (o' : ℕ) × (f' : ℕ) × (len : ℕ) × (c : ℕ) × (i ≡ block o' f' len c)
  elements-blocks left o f peer i mem =
      let (e, lt, q) = (elements_from_iff left dst sst es o f peer i).0 mem in (_, _, _, _, q)

  pub puts-blocks :
      (p : ℕ) (cs : List ℕ) (i : Instr)
      → Elem i (alltoalls_puts dst sst es nelems s d p cs)
      → (o : ℕ) × (f : ℕ) × (len : ℕ) × (c : ℕ) × (i ≡ block o f len c)
  unfolding alltoalls_puts
  puts-blocks p [] i mem = absurd mem
  puts-blocks p (c ∷ cs) i mem =
      elim (Elem-append i
        (elements_from nelems dst sst es ((p - s) / d * nelems * dst * es)
          ((c - s) / d * nelems * sst * es) c)
        (alltoalls_puts dst sst es nelems s d p cs) mem) [
          | inl own ↦
              elements-blocks nelems ((p - s) / d * nelems * dst * es)
                ((c - s) / d * nelems * sst * es) c i own
          | inr later ↦ puts-blocks p cs i later
        ]
