-- ===== src/Sync/Inv.antt =====
-- The invariant of a barrier over a tree, and what a change of one PE's phase must keep.
use mathlib.Core.Path.{subst}
use sandia_shmem.Base.{
  ℕ, ◌+◌, ◌<◌, ◌≡◌, ◌≢◌, ap, sym, ◌∙◌, true, Elem, IsDistinct, length, arith, ◌==◌, if◌then◌else◌,
  ℕ_discrete,
}
use sandia_shmem.Comm.{update, update_self, update-ne}
use sandia_shmem.Sync.Count.{count, count-ext, count-full, full-count}
use sandia_shmem.Sync.Shape.{
  Shape, IsTree, Phase, gather, report, await, acks, reported, cleared, past_gather, past_await,
  has_told,
}

module _ (t : Shape) (ph : ℕ → Phase) where
  -- The children of `p` that have reported.
  abbrev pub reports : ℕ → ℕ
  reports p = count (λ c. reported (ph c)) (t.children p)

  abbrev pub told : ℕ → ℕ
  told p = if p == t.root then 0 else if has_told (ph (t.parent p)) p then 1 else 0

  -- The counter of a PE.
  abbrev pub value : ℕ → ℕ
  value p = if cleared (ph p) then 0 else reports p + told p

-- The phases that a PE can be in.
abbrev pub Role : Shape → ℕ → Phase → Type 0
Role t p gather = 0 < length (t.children p)
Role t p report = p ≢ t.root
Role t p await = p ≢ t.root
Role t p (acks l) = IsDistinct l × ((c : ℕ) → Elem c l → Elem c (t.children p))
Role t p _ = Unit

pub record Inv (t : Shape) (ph : ℕ → Phase) (v : ℕ → ℕ) : Type 0 where
  pub role : (p : ℕ) → t.is_member p ≡ true → Role t p (ph p)
  pub gathered :
      (p : ℕ)
      → t.is_member p ≡ true
      → past_gather (ph p) ≡ true
      → reports t ph p ≡ length (t.children p)
  pub answered :
      (p : ℕ)
      → t.is_member p ≡ true
      → p ≢ t.root
      → past_await (ph p) ≡ true
      → has_told (ph (t.parent p)) p ≡ true
  pub values : (p : ℕ) → t.is_member p ≡ true → v p ≡ value t ph p

module _ {t : Shape} (is_tree : IsTree t) {p : ℕ} (member : t.is_member p ≡ true) where
  pub parent-ne : p ≢ t.root → t.parent p ≢ p
  parent-ne inner e = omega (arith, is_tree.deeper p member inner, ap t.depth e)

  pub not_own_child : ¬ Elem p (t.children p)
  not_own_child m = let (in_tree, e, inner) = is_tree.down p p member m in parent-ne inner e

module _ {t : Shape} (is_tree : IsTree t) {ph : ℕ → Phase} {v : ℕ → ℕ} (inv : Inv t ph v) (p : ℕ)
    (member : t.is_member p ≡ true) (k : Phase) where
  abbrev after : ℕ → Phase
  after = update ph p k

  -- The phase of any other PE is as before.
  after-other : (q : ℕ) → q ≢ p → after q ≡ ph q
  after-other q ne = update-ne ph k (λ e. ne (sym e))

  reports-own : reports t after p ≡ reports t ph p
  reports-own = count-ext _ _ (t.children p) (λ c m.
      ap reported (
        after-other c (λ e. not_own_child is_tree member (subst (λ x. Elem x (t.children p)) e m))))

  module _ (kept : reported (ph p) ≡ true → reported k ≡ true) where
    reported-kept : (c : ℕ) → reported (ph c) ≡ true → reported (after c) ≡ true
    reported-kept c e = elim (ℕ_discrete c p) [
      | yes same ↦
          ap (λ x. reported (after x)) same
          ∙ ap reported (update_self ph p k)
          ∙ kept (ap (λ x. reported (ph x)) (sym same) ∙ e)
      | no other ↦ ap reported (after-other c other) ∙ e
    ]

    reports-full :
        (q : ℕ) → reports t ph q ≡ length (t.children q) → reports t after q ≡ length (t.children q)
    reports-full q e =
        full-count _ (t.children q) (λ c m. reported-kept c (count-full _ (t.children q) e c m))

    -- A change of the phase of `p` to one that its role allows keeps the invariant, if `p` has gathered and been told
    -- where it has to be, does not take back a report or an ack, and the counters fit.
    pub moved :
        {v' : ℕ → ℕ}
        → Role t p k
        → (past_gather k ≡ true → reports t ph p ≡ length (t.children p))
        → (past_await k ≡ true → p ≢ t.root → has_told (ph (t.parent p)) p ≡ true)
        → ((q : ℕ) → has_told (ph p) q ≡ true → has_told k q ≡ true)
        → ((q : ℕ) → t.is_member q ≡ true → v' q ≡ value t after q)
        → Inv t after v'
    moved role gathered answered told_kept values = record {
      role = λ q mq. elim (ℕ_discrete q p) [
        | yes same ↦ rw same (rw (update_self ph p k) role)
        | no other ↦ rw (after-other q other) (inv.role q mq)
      ];
      gathered = λ q mq e. elim (ℕ_discrete q p) [
        | yes same ↦
            rw same (
              reports-own
              ∙ gathered (sym (ap past_gather (ap after same ∙ update_self ph p k)) ∙ e))
        | no other ↦
            reports-full q (inv.gathered q mq (ap past_gather (sym (after-other q other)) ∙ e))
      ];
      answered = λ q mq inner e. elim (ℕ_discrete q p) [
        | yes same ↦ rw same (
            told_after (t.parent p) p (
              answered (sym (ap past_await (ap after same ∙ update_self ph p k)) ∙ e)
                (λ r. inner (same ∙ r))))
        | no other ↦
            told_after (t.parent q) q
              (inv.answered q mq inner (ap past_await (sym (after-other q other)) ∙ e))
      ];
      values = values;
    }
      where
        told_after : (q c : ℕ) → has_told (ph q) c ≡ true → has_told (after q) c ≡ true
        told_after q c e = elim (ℕ_discrete q p) [
          | yes same ↦
              ap (λ x. has_told (after x) c) same
              ∙ ap (λ x. has_told x c) (update_self ph p k)
              ∙ told_kept c (ap (λ x. has_told (ph x) c) (sym same) ∙ e)
          | no other ↦ ap (λ x. has_told x c) (after-other q other) ∙ e
        ]
