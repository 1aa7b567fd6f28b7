-- ===== src/Sync/Changes.antt =====
-- The phase changes of a barrier over a tree that write a counter, or follow a wait for the parent.
use mathlib.Core.Path.{subst}
use sandia_shmem.Base.{
  ℕ, ◌+◌, ◌<◌, ◌≡◌, ◌≢◌, refl, ap, sym, ◌∙◌, inl, inr, Bool-cases, true, false, Elem, length, arith,
  ◌==◌, ℕ_discrete, ==_iff,
}
use sandia_shmem.Comm.{update, update-ne}
use sandia_shmem.Sync.Count.{elem_b-Elem, count-full}
use sandia_shmem.Sync.Shape.{
  Shape, IsTree, Phase, gather, report, await, clear, drain, acks, reported, cleared, past_gather,
  past_await, has_told,
}
use sandia_shmem.Sync.Inv.{reports, told, Role, Inv, moved}
use sandia_shmem.Sync.Moves.{after-same, reports-same, reports-next, told-same, quiet_move}

past_gather-cleared : (k : Phase) → cleared k ≡ true → past_gather k ≡ true
past_gather-cleared gather e = cc
past_gather-cleared _ e = refl

pub past_await-cleared : (k : Phase) → cleared k ≡ true → past_await k ≡ true
past_await-cleared drain e = refl
past_await-cleared (acks l) e = refl
past_await-cleared _ e = cc

module _ {t : Shape} (is_tree : IsTree t) {ph : ℕ → Phase} {v : ℕ → ℕ} (inv : Inv t ph v) (p : ℕ)
    (member : t.is_member p ≡ true) where
  -- A parent that waits for a report has not reset its counter.
  parent_not_cleared : p ≢ t.root → reported (ph p) ≡ false → cleared (ph (t.parent p)) ≡ false
  parent_not_cleared inner off = elim (Bool-cases (cleared (ph (t.parent p)))) [
    | inr e ↦ e
    | inl e ↦
        let (up, listed) = is_tree.up p member inner in
        let on : reported (ph p) ≡ true =
          count-full _ (t.children (t.parent p))
            (inv.gathered (t.parent p) up (past_gather-cleared _ e)) p listed in
        absurd cc
  ]

  pub report_move :
      ph p ≡ report → Inv t (update ph p await) (update v (t.parent p) (v (t.parent p) + 1))
  report_move e =
      let inner : p ≢ t.root = subst (Role t p) e (inv.role p member) in
      let open_parent = parent_not_cleared inner (ap reported e) in
      moved is_tree inv p member await (λ _. refl) inner
        (λ _. inv.gathered p member (ap past_gather e)) (λ h _. cc)
        (λ q h. ap (λ x. has_told x q) (sym e) ∙ h)
        (λ q mq.
          let a = after-same is_tree inv p member await cleared (ap cleared (sym e)) q in
          let b = reports-next is_tree inv p member await (ap reported e) refl inner q mq in
          let c =
            told-same is_tree inv p member await (λ q _ _ _. ap (λ x. has_told x q) (sym e)) q mq in
          elim (ℕ_discrete (t.parent p) q) [
            | yes same ↦
                let hit : (t.parent p == q) ≡ true = (==_iff _ _).1 same in
                let shut : cleared (ph q) ≡ false =
                  ap (λ x. cleared (ph x)) (sym same) ∙ open_parent in
                let old : v q ≡ reports t ph q + told t ph q = inv.values q mq ∙ rw shut refl in
                let old' : v (t.parent p) ≡ v q = ap v same in
                rw a (rw b (rw c (rw hit (rw shut (omega (arith, old, old'))))))
            | no other ↦
                let miss : (t.parent p == q) ≡ false = ground arith in
                rw miss (inv.values q mq ∙ rw a (rw b (rw c (rw miss refl))))
          ])

  pub await_move : ph p ≡ await → length (t.children p) < v p → Inv t (update ph p clear) v
  await_move e high =
      let inner : p ≢ t.root = subst (Role t p) e (inv.role p member) in
      let full = inv.gathered p member (ap past_gather e) in
      let old : v p ≡ reports t ph p + told t ph p = inv.values p member ∙ rw e refl in
      let miss : (p == t.root) ≡ false = ground arith in
      let answered : has_told (ph (t.parent p)) p ≡ true =
        elim (Bool-cases (has_told (ph (t.parent p)) p)) [
          | inl h ↦ h
          | inr h ↦
              let zero_told : told t ph p ≡ 0 = rw miss (rw h refl) in
              absurd (omega (arith, zero_told, old, full, high))
        ] in
      quiet_move is_tree inv p member clear tt (λ _. full) (λ _ _. answered)
        (λ _. ap reported (sym e)) (ap cleared (sym e)) (λ q _ _ _. ap (λ x. has_told x q) (sym e))
        (λ q h. ap (λ x. has_told x q) (sym e) ∙ h) (λ _. refl)

  pub clear_move : ph p ≡ clear → Inv t (update ph p drain) (update v p 0)
  clear_move e =
      moved is_tree inv p member drain (λ _. refl) tt
        (λ _. inv.gathered p member (ap past_gather e))
        (λ _ inner. inv.answered p member inner (ap past_await e))
        (λ q h. ap (λ x. has_told x q) (sym e) ∙ h)
        (λ q mq.
          let b = reports-same is_tree inv p member drain (λ _. ap reported (sym e)) q mq in
          let c =
            told-same is_tree inv p member drain (λ q _ _ _. ap (λ x. has_told x q) (sym e)) q mq in
          elim (ℕ_discrete p q) [
            | yes same ↦ let hit : (p == q) ≡ true = (==_iff _ _).1 same in rw hit refl
            | no other ↦
                let a = update-ne ph drain other in
                let miss : (p == q) ≡ false = ground arith in
                rw miss (inv.values q mq ∙ rw b (rw c refl))
          ])

  pub drain_move : ph p ≡ drain → Inv t (update ph p (acks (t.children p))) v
  drain_move e =
      quiet_move is_tree inv p member (acks (t.children p)) (is_tree.distinct p member, λ c m. m)
        (λ _. inv.gathered p member (ap past_gather e))
        (λ _ inner. inv.answered p member inner (ap past_await e)) (λ _. ap reported (sym e))
        (ap cleared (sym e))
        (λ q mq inner at.
          let (up, listed) = is_tree.up q mq inner in
          let hit = elem_b-Elem q (t.children p) (subst (λ x. Elem q (t.children x)) at listed) in
          rw hit (ap (λ x. has_told x q) (sym e)))
        (λ q h. let f : false ≡ true = ap (λ x. has_told x q) (sym e) ∙ h in cc) (λ _. refl)
