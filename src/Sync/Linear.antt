-- ===== src/Sync/Linear.antt =====
-- `shmem_internal_sync_linear` of src/collectives.c is a barrier over a star.
use mathlib.Core.Path.{subst}
use native.Mathlib.Nat.{mul-div_cancel_left, mul-mod_right, div-add-mod}
use sandia_shmem.Base.{
  ℕ, zero, suc, ◌+◌, ◌-◌, ◌*◌, ◌/◌, ◌%◌, ◌<◌, ◌≤◌, ◌≡◌, ◌≢◌, ◌↔◌, refl, ap, sym, ◌∙◌, inl, inr,
  Bool, Bool-cases, true, false, ◌&&◌, List, [], ◌∷◌, map, Elem, IsDistinct, length, arith, ltb,
  leb, ◌==◌, if◌then◌else◌, ℕ_discrete, ==_iff,
}
use sandia_shmem.Comm.{put, wait, eq, Machine}
use sandia_shmem.Sync.{ack_from, sync_linear}
use sandia_shmem.Sync.Shape.{Shape, IsTree, code, start, ack}
use sandia_shmem.Sync.Ends.{Calls, Calls-Started, IsBarrier, tree-IsBarrier}

-- The PEs pe, pe + d, …, `left` of them.
abbrev pub pes_from : ℕ → ℕ → ℕ → List ℕ
pes_from d zero pe = []
pes_from d (suc left) pe = pe ∷ pes_from d left (pe + d)

pub pes_from_iff :
    (d left pe c : ℕ) → Elem c (pes_from d left pe) ↔ ((k : ℕ) × (k < left) × (c ≡ pe + d * k))
pes_from_iff d zero pe c = ((λ m. absurd m), (λ (k, lt, e). absurd (omega arith)))
pes_from_iff d (suc left) pe c =
    let ih = pes_from_iff d left (pe + d) c in
    (
      (λ m. elim m [
        | inl e ↦ (0, omega arith, omega (arith, e))
        | inr later ↦ let (k, lt, e) = ih.0 later in (k + 1, omega arith, omega (arith, e))
      ]),
      (λ (k, lt, e). elim (ℕ_discrete k 0) [
        | yes first ↦ inl (e ∙ ap (λ x. pe + d * x) first ∙ omega arith)
        | no more ↦
            let same : k ≡ (k - 1) + 1 = omega arith in
            inr (ih.1 (k - 1, omega arith, e ∙ ap (λ x. pe + d * x) same ∙ omega arith))
      ]),
    )

pub pes_from-IsDistinct : (d left pe : ℕ) → 0 < d → IsDistinct (pes_from d left pe)
pes_from-IsDistinct d zero pe h = tt
pes_from-IsDistinct d (suc left) pe h = (
  (λ m. let (k, lt, e) = (pes_from_iff d left (pe + d) pe).0 m in omega (arith, e)),
  pes_from-IsDistinct d left (pe + d) h,
)

pub length-pes_from : (d left pe : ℕ) → length (pes_from d left pe) ≡ left
length-pes_from d zero pe = refl
length-pes_from d (suc left) pe = ap suc (length-pes_from d left (pe + d))

-- The PEs of the active set <s, d, z>.
abbrev pub in_set : ℕ → ℕ → ℕ → ℕ → Bool
in_set s d z p = leb s p && ((p - s) % d == 0) && ltb ((p - s) / d) z

pub in_set_iff :
    (s d z p : ℕ) → 0 < d → (in_set s d z p ≡ true) ↔ ((k : ℕ) × (k < z) × (p ≡ s + d * k))
in_set_iff s d z p h = (
  (λ e. ((p - s) / d, ground arith, ground (arith, div-add-mod (p - s) d))),
  (λ (k, lt, e).
      let a : d * k / d ≡ k = mul-div_cancel_left k h in
      let b : d * k % d ≡ 0 = mul-mod_right d k in
      let c : p - s ≡ d * k = omega (arith, e) in rw c (rw (a, b) (ground (arith, e)))),
)

-- The first PE gathers from all others, and its acks are puts.
abbrev star : ℕ → ℕ → ℕ → ℕ → Shape
star s d z slot = record {
  slot = slot;
  is_member = in_set s d z;
  root = s;
  parent = λ p. s;
  children = λ p. if p == s then pes_from d (z - 1) (s + d) else [];
  put_acks = true;
  depth = λ p. if p == s then 0 else 1;
  height = 1;
}

module _ (s d z slot : ℕ) (positive : 0 < d) (two : 2 ≤ z) where
  at_start : (s == s) ≡ true
  at_start = (==_iff s s).1 refl

  start_in : in_set s d z s ≡ true
  start_in = (in_set_iff s d z s positive).1 (0, omega arith, omega arith)

  -- The children of the first PE are the others.
  child_iff : (c : ℕ) → Elem c (pes_from d (z - 1) (s + d)) ↔ ((in_set s d z c ≡ true) × (c ≢ s))
  child_iff c = (
    (λ m.
        let (k, lt, e) = (pes_from_iff d (z - 1) (s + d) c).0 m in
        (
          (in_set_iff s d z c positive).1 (k + 1, omega arith, omega (arith, e)),
          λ same. omega (arith, e, same),
        )),
    (λ (member, other).
        let (k, lt, e) = (in_set_iff s d z c positive).0 member in
        elim (ℕ_discrete k 0) [
          | yes first ↦ absurd (other (e ∙ ap (λ x. s + d * x) first ∙ omega arith))
          | no more ↦
              let same : k ≡ (k - 1) + 1 = omega arith in
              (pes_from_iff d (z - 1) (s + d) c).1
                (k - 1, omega (arith, lt), e ∙ ap (λ x. s + d * x) same ∙ omega arith)
        ]),
  )

  star-down :
      (p c : ℕ)
      → Elem c ((star s d z slot).children p)
      → (in_set s d z c ≡ true) × (s ≡ p) × (c ≢ s)
  star-down p c m = elim (Bool-cases (p == s)) [
    | inl e ↦
        let (member, other) =
          (child_iff c).0
            (subst (λ b. Elem c (if b then pes_from d (z - 1) (s + d) else [])) e m) in
        (member, sym ((==_iff p s).0 e), other)
    | inr e ↦ absurd (subst (λ b. Elem c (if b then pes_from d (z - 1) (s + d) else [])) e m)
  ]

  star-IsTree : IsTree (star s d z slot)
  star-IsTree = record {
    root_in = start_in;
    root_inner = rw at_start (omega (arith, length-pes_from d (z - 1) (s + d)));
    up = λ p member other. (start_in, rw at_start ((child_iff p).1 (member, other)));
    down = λ p c _ m. star-down p c m;
    distinct = λ p _. elim (Bool-cases (p == s)) [
      | inl e ↦ rw e (pes_from-IsDistinct d (z - 1) (s + d) positive)
      | inr e ↦ rw e tt
    ];
    leaves = λ p c _ _ m.
        let other = (star-down p c m).2 in
        let miss : (c == s) ≡ false = ground arith in rw miss refl;
    deeper = λ p _ other. ground arith;
    bounded = λ p _. ground arith;
  }

  acks-ack_from :
      (left pe : ℕ) → ack_from slot d left pe ≡ map (ack (star s d z slot)) (pes_from d left pe)
  unfolding ack_from
  acks-ack_from zero pe = refl
  acks-ack_from (suc left) pe = ap (λ l. put slot 1 pe ∷ l) (acks-ack_from left (pe + d))

  linear-code :
      (p : ℕ)
      → in_set s d z p ≡ true
      → sync_linear s d z slot p ≡ code (star s d z slot) p (start (star s d z slot) p)
  unfolding sync_linear
  linear-code p member = elim (ℕ_discrete s p) [
    | yes same ↦
        let len = length-pes_from d (z - 1) (s + d) in
        let more : (z - 1 == 0) ≡ false = ground arith in
        rw⁻¹ same (
          rw (at_start, start_in)
            (rw (len, more)
              (rw at_start (
                rw len (
                  ap (λ l. wait slot eq (z - 1) ∷ put slot 0 s ∷ wait slot eq 0 ∷ l)
                    (acks-ack_from (z - 1) (s + d)))))))
    | no other ↦
        let hit : (s == p) ≡ false = ground arith in
        let miss : (p == s) ≡ false = ground arith in rw (hit, miss, member) (rw miss refl)
  ]

-- On an active set <s, d, z> with positive stride and two PEs or more, and with counters at 0, the linear
-- barrier keeps the promise of a barrier in every interleaving: a PE that is through finds its counter at 0
-- and every PE of the set past its first instruction, some PE can go on while one is not through, no PE
-- runs more than its list, and only this counter is touched.
pub sync_linear-IsBarrier :
    {A : Type 0} (op : A → A → A) (s d z slot : ℕ) {m : Machine A}
    → 0 < d
    → 2 ≤ z
    → Calls (in_set s d z) slot (sync_linear s d z slot) m
    → IsBarrier op (in_set s d z) slot m
sync_linear-IsBarrier op s d z slot positive two calls =
    tree-IsBarrier op (star-IsTree s d z slot positive two)
      (Calls-Started (linear-code s d z slot positive two) calls)
