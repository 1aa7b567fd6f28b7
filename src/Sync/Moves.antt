-- ===== src/Sync/Moves.antt =====
-- What each phase change of a PE does to the counters of a barrier over a tree.
use mathlib.Core.Path.{subst}
use sandia_shmem.Base.{
  ℕ, suc, ◌+◌, ◌≡◌, ◌≢◌, refl, ap, sym, ◌∙◌, inl, inr, Bool-cases, true, false, Elem, length, arith,
  ◌==◌, if◌then◌else◌, ℕ_discrete, ==_iff,
}
use sandia_shmem.Comm.{update, update_self, update-ne}
use sandia_shmem.Sync.Count.{count-ext, count-flip, count-full}
use sandia_shmem.Sync.Shape.{
  Shape, IsTree, Phase, gather, report, clear, acks, reported, cleared, past_gather, past_await,
  has_told,
}
use sandia_shmem.Sync.Inv.{reports, told, Role, Inv, moved}

module _ {t : Shape} (is_tree : IsTree t) {ph : ℕ → Phase} {v : ℕ → ℕ} (inv : Inv t ph v) (p : ℕ)
    (member : t.is_member p ≡ true) (k : Phase) where
  abbrev pub after : ℕ → Phase
  after = update ph p k

  pub after-same : {B : Type 0} (f : Phase → B) → f k ≡ f (ph p) → (q : ℕ) → f (after q) ≡ f (ph q)
  after-same f e q = elim (ℕ_discrete q p) [
    | yes same ↦ rw same (ap f (update_self ph p k) ∙ e)
    | no other ↦ ap f (update-ne ph k (λ r. other (sym r)))
  ]

  pub reports-same :
      (p ≢ t.root → reported k ≡ reported (ph p))
      → (q : ℕ) → t.is_member q ≡ true
      → reports t after q ≡ reports t ph q
  reports-same e q mq = count-ext _ _ (t.children q) (λ c m. elim (ℕ_discrete c p) [
    | yes same ↦
        let inner : p ≢ t.root = λ r. (is_tree.down q c mq m).2 (same ∙ r) in
        ap (λ x. reported (after x)) same
        ∙ ap reported (update_self ph p k)
        ∙ e inner
        ∙ ap (λ x. reported (ph x)) (sym same)
    | no other ↦ ap reported (update-ne ph k (λ r. other (sym r)))
  ])

  -- A report adds one to the parent's counter.
  pub reports-next :
      reported (ph p) ≡ false
      → reported k ≡ true
      → p ≢ t.root
      → (q : ℕ) → t.is_member q ≡ true
      → reports t after q ≡ (if t.parent p == q then suc (reports t ph q) else reports t ph q)
  reports-next off on inner q mq = elim (ℕ_discrete (t.parent p) q) [
    | yes same ↦
        let hit : (t.parent p == q) ≡ true = (==_iff _ _).1 same in
        rw hit (
          count-flip _ _ p (t.children q) (is_tree.distinct q mq)
            (subst (λ x. Elem p (t.children x)) same (is_tree.up p member inner).1) off
            (ap reported (update_self ph p k) ∙ on)
            (λ c ne. ap reported (update-ne ph k (λ r. ne (sym r)))))
    | no other ↦
        let miss : (t.parent p == q) ≡ false = ground arith in
        rw miss (
          count-ext _ _ (t.children q) (λ c m.
            ap reported (update-ne ph k (λ r. other (ap t.parent r ∙ (is_tree.down q c mq m).1)))))
  ]

  pub told-same :
      ((q : ℕ)
        → t.is_member q ≡ true
        → q ≢ t.root
        → t.parent q ≡ p
        → has_told k q ≡ has_told (ph p) q)
      → (q : ℕ) → t.is_member q ≡ true
      → told t after q ≡ told t ph q
  told-same e q mq = elim (ℕ_discrete q t.root) [
    | yes at_root ↦ let hit : (q == t.root) ≡ true = (==_iff _ _).1 at_root in rw hit refl
    | no inner ↦
        let same : has_told (after (t.parent q)) q ≡ has_told (ph (t.parent q)) q =
          elim (ℕ_discrete (t.parent q) p) [
            | yes here ↦
                ap (λ x. has_told (after x) q) here
                ∙ ap (λ x. has_told x q) (update_self ph p k)
                ∙ e q mq inner here
                ∙ ap (λ x. has_told (ph x) q) (sym here)
            | no there ↦ ap (λ x. has_told x q) (update-ne ph k (λ r. there (sym r)))
          ] in
        rw same refl
  ]

  -- A change that tells nobody anything.
  pub quiet_move :
      Role t p k
      → (past_gather k ≡ true → reports t ph p ≡ length (t.children p))
      → (past_await k ≡ true → p ≢ t.root → has_told (ph (t.parent p)) p ≡ true)
      → (p ≢ t.root → reported k ≡ reported (ph p))
      → cleared k ≡ cleared (ph p)
      → ((q : ℕ)
          → t.is_member q ≡ true
          → q ≢ t.root
          → t.parent q ≡ p
          → has_told k q ≡ has_told (ph p) q)
      → ((q : ℕ) → has_told (ph p) q ≡ true → has_told k q ≡ true)
      → (reported (ph p) ≡ true → reported k ≡ true)
      → Inv t after v
  quiet_move role gathered answered same_reported same_cleared same_told kept kept_report =
      moved is_tree inv p member k kept_report role gathered answered kept (λ q mq.
        let a = after-same cleared same_cleared q in
        let b = reports-same same_reported q mq in
        let c = told-same same_told q mq in inv.values q mq ∙ rw a (rw b (rw c refl)))

-- A PE that has been told has reported.
pub told_reported :
    {t : Shape} (is_tree : IsTree t) {ph : ℕ → Phase} {v : ℕ → ℕ}
    → Inv t ph v
    → (p : ℕ) → t.is_member p ≡ true
    → p ≢ t.root
    → has_told (ph (t.parent p)) p ≡ true
    → reported (ph p) ≡ true
told_reported {t} is_tree {ph} inv p member inner e =
    let (up, listed) = is_tree.up p member inner in
    count-full _ (t.children (t.parent p))
      (inv.gathered (t.parent p) up (past (ph (t.parent p)) p e)) p listed
  where
    past : (k : Phase) (c : ℕ) → has_told k c ≡ true → past_gather k ≡ true
    past gather c e = cc
    past (acks l) c e = refl
    past _ c e = refl

module _ {t : Shape} (is_tree : IsTree t) {ph : ℕ → Phase} {v : ℕ → ℕ} (inv : Inv t ph v) (p : ℕ)
    (member : t.is_member p ≡ true) where
  -- Before the report nobody has told the PE anything.
  pub told-zero : reported (ph p) ≡ false → told t ph p ≡ 0
  told-zero off = elim (ℕ_discrete p t.root) [
    | yes at_root ↦ let hit : (p == t.root) ≡ true = (==_iff _ _).1 at_root in rw hit refl
    | no inner ↦ elim (Bool-cases (has_told (ph (t.parent p)) p)) [
      | inl e ↦ let on = told_reported is_tree inv p member inner e in absurd cc
      | inr e ↦ rw e (ground arith)
    ]
  ]

  pub gather-full :
      ph p ≡ gather → v p ≡ length (t.children p) → reports t ph p ≡ length (t.children p)
  gather-full e full =
      let zero_told = told-zero (ap reported e) in
      let at : v p ≡ reports t ph p + told t ph p = inv.values p member ∙ rw e refl in
      omega (arith, zero_told, at, full)

  pub gather_root :
      ph p ≡ gather → p ≡ t.root → v p ≡ length (t.children p) → Inv t (update ph p clear) v
  gather_root e at_root full =
      quiet_move is_tree inv p member clear tt (λ _. gather-full e full)
        (λ _ inner. absurd (inner at_root)) (λ inner. absurd (inner at_root)) (ap cleared (sym e))
        (λ q _ _ _. ap (λ x. has_told x q) (sym e)) (λ q h. cc) (λ h. refl)

  pub gather_inner :
      ph p ≡ gather → p ≢ t.root → v p ≡ length (t.children p) → Inv t (update ph p report) v
  gather_inner e inner full =
      quiet_move is_tree inv p member report inner (λ _. gather-full e full) (λ h _. cc)
        (λ _. ap reported (sym e)) (ap cleared (sym e)) (λ q _ _ _. ap (λ x. has_told x q) (sym e))
        (λ q h. ap (λ x. has_told x q) (sym e) ∙ h) (λ h. ap reported (sym e) ∙ h)
