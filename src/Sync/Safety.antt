-- ===== src/Sync/Safety.antt =====
-- What holds whenever a PE leaves a barrier over a tree, src/collectives.c.
use sandia_shmem.Base.{
  ℕ, ◌<◌, ◌≡◌, refl, ap, sym, ◌∙◌, ◌⊎◌, inl, inr, Bool-cases, true, false, List, [], ◌∷◌, none,
  some, Elem, length, arith, ◌==◌, ℕ_discrete, ==_iff,
}
use sandia_shmem.Comm.{Machine, step, step-none, Runs, here, next}
use sandia_shmem.Sync.Count.{count, count-le}
use sandia_shmem.Sync.Shape.{
  Shape, IsTree, gather, report, code, start, reported, past_gather, past_await, has_told,
}
use sandia_shmem.Sync.Inv.{Inv, told}
use sandia_shmem.Sync.Steps.{Holds, counters, step_from}

-- Every PE is at the start of the barrier, and the counters are 0.
pub record Started {A : Type 0} (t : Shape) (m : Machine A) : Type 0 where
  pub prog : (p : ℕ) → m.prog p ≡ code t p (start t p)
  pub zeros : (p : ℕ) → t.is_member p ≡ true → counters t m p ≡ 0

module _ {t : Shape} (is_tree : IsTree t) where
  -- A member starts with its report, if it is a leaf, and otherwise by waiting.
  pub start-cases :
      (p : ℕ)
      → t.is_member p ≡ true
      → ((start t p ≡ report) × (length (t.children p) ≡ 0))
        ⊎ ((start t p ≡ gather) × (0 < length (t.children p)))
  start-cases p member = ground (arith, member)

  start-reported : (p : ℕ) → t.is_member p ≡ true → reported (start t p) ≡ false
  start-reported p member = elim (start-cases p member) [
    | inl (e, _) ↦ ap reported e
    | inr (e, _) ↦ ap reported e
  ]

  start-told : (p c : ℕ) → t.is_member p ≡ true → has_told (start t p) c ≡ false
  start-told p c member = elim (start-cases p member) [
    | inl (e, _) ↦ ap (λ k. has_told k c) e
    | inr (e, _) ↦ ap (λ k. has_told k c) e
  ]

  no_reports :
      (xs : List ℕ)
      → ((c : ℕ) → Elem c xs → t.is_member c ≡ true)
      → count (λ c. reported (start t c)) xs ≡ 0
  no_reports [] h = refl
  no_reports (x ∷ xs) h =
      let off = start-reported x (h x (inl refl)) in rw off (no_reports xs (λ c m. h c (inr m)))

  start-Inv : {v : ℕ → ℕ} → ((p : ℕ) → t.is_member p ≡ true → v p ≡ 0) → Inv t (start t) v
  start-Inv zeros = record {
    role = λ p member. elim (start-cases p member) [
      | inl (e, leaf) ↦
          rw e (λ r. omega (arith, is_tree.root_inner, ap (λ x. length (t.children x)) r, leaf))
      | inr (e, inner) ↦ rw e inner
    ];
    gathered = λ p member past. elim (start-cases p member) [
      | inl (e, leaf) ↦ omega (arith, leaf, count-le (λ c. reported (start t c)) (t.children p))
      | inr (e, inner) ↦ let f : false ≡ true = ap past_gather (sym e) ∙ past in cc
    ];
    answered = λ p member inner past. elim (start-cases p member) [
      | inl (e, leaf) ↦ let f : false ≡ true = ap past_await (sym e) ∙ past in cc
      | inr (e, more) ↦ let f : false ≡ true = ap past_await (sym e) ∙ past in cc
    ];
    values = λ p member.
        let z = zeros p member in
        let r = no_reports (t.children p) (λ c m. (is_tree.down p c member m).0) in
        let told_none : told t (start t) p ≡ 0 = elim (ℕ_discrete p t.root) [
          | yes at_root ↦ let hit : (p == t.root) ≡ true = (==_iff _ _).1 at_root in rw hit refl
          | no inner ↦
              let off = start-told (t.parent p) p (is_tree.up p member inner).0 in
              rw off (ground arith)
        ] in
        z ∙ elim (start-cases p member) [
          | inl (e, _) ↦ rw e (omega (arith, r, told_none))
          | inr (e, _) ↦ rw e (omega (arith, r, told_none))
        ];
  }

  pub start-Holds : {A : Type 0} {m : Machine A} → Started t m → Holds t m
  start-Holds started = record {
    phase = start t;
    prog = started.prog;
    outside = λ p out. rw out refl;
    inv = start-Inv started.zeros;
  }

  module _ {A : Type 0} (op : A → A → A) where
    pub step-Holds : (p : ℕ) {m m' : Machine A} → Holds t m → step op p m ≡ some m' → Holds t m'
    step-Holds p {m} {m'} h e = elim (Bool-cases (t.is_member p)) [
      | inl member ↦ step_from op is_tree h p member (h.phase p) refl e
      | inr out ↦
          let f : none ≡ some m' =
            sym (step-none op p m (h.prog p ∙ ap (code t p) (h.outside p out))) ∙ e in
          absurd cc
    ]

    pub Runs-Holds : {m m' : Machine A} → Started t m → Runs op m m' → Holds t m'
    Runs-Holds started here = start-Holds started
    Runs-Holds started (next p r e) = step-Holds p (Runs-Holds started r) e
