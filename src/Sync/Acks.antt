-- ===== src/Sync/Acks.antt =====
-- An ack of a barrier over a tree: the parent `p` tells its child `c`, the first of those left.
use mathlib.Core.Path.{subst}
use sandia_shmem.Base.{
  ℕ, suc, ◌+◌, ◌≡◌, ◌≢◌, refl, ap, sym, ◌∙◌, inl, inr, Bool-cases, true, false, List, [], ◌∷◌, Elem,
  IsDistinct, arith, ◌==◌, if◌then◌else◌, ℕ_discrete, ==_iff,
}
use sandia_shmem.Comm.{update, update_self, update-ne}
use sandia_shmem.Sync.Count.{count, elem_b, elem_b-Elem, Elem-elem_b}
use sandia_shmem.Sync.Shape.{
  Shape, IsTree, Phase, acks, reported, cleared, past_gather, past_await, has_told,
}
use sandia_shmem.Sync.Inv.{reports, told, Role, Inv, moved}
use sandia_shmem.Sync.Moves.{after-same, reports-same}
use sandia_shmem.Sync.Changes.{past_await-cleared}

module _ {t : Shape} (is_tree : IsTree t) {ph : ℕ → Phase} {v : ℕ → ℕ} (inv : Inv t ph v) (p : ℕ)
    (member : t.is_member p ≡ true) (c : ℕ) (l : List ℕ) (at : ph p ≡ acks (c ∷ l)) where
  left : IsDistinct (c ∷ l) × ((d : ℕ) → Elem d (c ∷ l) → Elem d (t.children p))
  left = subst (Role t p) at (inv.role p member)

  child : (t.is_member c ≡ true) × (t.parent c ≡ p) × (c ≢ t.root)
  child = is_tree.down p c member (left.1 c (inl refl))

  not_told : has_told (ph (t.parent c)) c ≡ false
  not_told =
      let hit : elem_b c (c ∷ l) ≡ true = elem_b-Elem c (c ∷ l) (inl refl) in
      ap (λ x. has_told (ph x) c) child.1 ∙ ap (λ x. has_told x c) at ∙ rw hit refl

  told-none : told t ph c ≡ 0
  told-none = rw not_told (ground arith)

  child_not_cleared : cleared (ph c) ≡ false
  child_not_cleared = elim (Bool-cases (cleared (ph c))) [
    | inr e ↦ e
    | inl e ↦
        let on = inv.answered c child.0 child.2 (past_await-cleared (ph c) e) in
        let off = not_told in absurd cc
  ]

  -- What stands in the counter of a leaf that is not told yet.
  pub leaf_counter : t.children c ≡ [] → v c ≡ 0
  leaf_counter leaf =
      let old : v c ≡ reports t ph c + told t ph c =
        inv.values c child.0 ∙ rw child_not_cleared refl in
      let none_left : reports t ph c ≡ 0 = ap (count (λ d. reported (ph d))) leaf in
      omega (arith, told-none, old, none_left)

  -- The entry of another child is told or not as before.
  others : (q : ℕ) → c ≢ q → elem_b q (c ∷ l) ≡ elem_b q l
  others q ne = ground arith

  first_gone : elem_b c l ≡ false
  first_gone = elim (Bool-cases (elem_b c l)) [
    | inl e ↦ absurd (left.0.0 (Elem-elem_b c l e))
    | inr e ↦ e
  ]

  abbrev after : ℕ → Phase
  after = update ph p (acks l)

  told-next :
      (q : ℕ)
      → t.is_member q ≡ true
      → told t after q ≡ (if c == q then suc (told t ph q) else told t ph q)
  told-next q mq = elim (ℕ_discrete c q) [
    | yes same ↦ rw⁻¹ same (
        let hit : (c == c) ≡ true = (==_iff c c).1 refl in
        let inner : (c == t.root) ≡ false = let ne = child.2 in ground arith in
        let on : has_told (after (t.parent c)) c ≡ true =
          ap (λ x. has_told (after x) c) child.1
          ∙ ap (λ x. has_told x c) (update_self ph p (acks l))
          ∙ rw first_gone refl in
        let one : told t after c ≡ 1 = rw inner (rw on refl) in
        one ∙ rw hit (ap suc (sym told-none)))
    | no other ↦
        let miss : (c == q) ≡ false = ground arith in
        let same : has_told (after (t.parent q)) q ≡ has_told (ph (t.parent q)) q =
          elim (ℕ_discrete (t.parent q) p) [
            | yes here ↦
                ap (λ x. has_told (after x) q) here
                ∙ ap (λ x. has_told x q) (update_self ph p (acks l))
                ∙ ap (λ x. if x then false else true) (sym (others q other))
                ∙ ap (λ x. has_told x q) (sym at)
                ∙ ap (λ x. has_told (ph x) q) (sym here)
            | no there ↦ ap (λ x. has_told x q) (update-ne ph (acks l) (λ r. there (sym r)))
          ] in
        rw miss (rw same refl)
  ]

  pub ack_move : Inv t after (update v c (v c + 1))
  ack_move =
      moved is_tree inv p member (acks l) (λ _. refl) (left.0.1, λ d m. left.1 d (inr m))
        (λ _. inv.gathered p member (ap past_gather at))
        (λ _ inner. inv.answered p member inner (ap past_await at))
        (λ q h. elim (Bool-cases (elem_b q l)) [
          | inr e ↦ rw e refl
          | inl e ↦
              let in_list : elem_b q (c ∷ l) ≡ true = ground arith in
              let off : has_told (ph p) q ≡ false = ap (λ x. has_told x q) at ∙ rw in_list refl in
              let f : false ≡ true = sym off ∙ h in cc
        ])
        (λ q mq.
          let a = after-same is_tree inv p member (acks l) cleared (ap cleared (sym at)) q in
          let b = reports-same is_tree inv p member (acks l) (λ _. ap reported (sym at)) q mq in
          let d = told-next q mq in
          elim (ℕ_discrete c q) [
            | yes same ↦
                let hit : (c == q) ≡ true = (==_iff _ _).1 same in
                let shut : cleared (ph q) ≡ false =
                  ap (λ x. cleared (ph x)) (sym same) ∙ child_not_cleared in
                let old : v q ≡ reports t ph q + told t ph q = inv.values q mq ∙ rw shut refl in
                let old' : v c ≡ v q = ap v same in
                rw a (rw b (rw d (rw hit (rw shut (omega (arith, old, old'))))))
            | no other ↦
                let miss : (c == q) ≡ false = ground arith in
                let d' : told t after q ≡ told t ph q = d ∙ rw miss refl in
                rw miss (inv.values q mq ∙ rw a (rw b (rw d' refl)))
          ])
