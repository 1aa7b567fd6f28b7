-- ===== src/Sync/Barrier.antt =====
-- The promises of a barrier over a tree, for all runs of the PEs: src/collectives.c.
use sandia_shmem.Base.{
  ℕ, zero, suc, ◌+◌, ◌<◌, ◌≤◌, ◌≡◌, ◌≢◌, refl, ap, sym, ◌∙◌, inl, inr, Bool-cases, true, false,
  List, [], ◌∷◌, map, Elem, length, arith, ◌==◌, ℕ_discrete,
}
use sandia_shmem.Comm.{Instr, put, add, wait, eq, Machine, Runs}
use sandia_shmem.Sync.Count.{count-full}
use sandia_shmem.Sync.Shape.{
  Shape, IsTree, Phase, gather, report, await, clear, drain, acks, ack, code, start, reported,
  cleared, past_gather, past_await, has_told,
}
use sandia_shmem.Sync.Inv.{Role}
use sandia_shmem.Sync.Steps.{Holds, counters}
use sandia_shmem.Sync.Safety.{Started, Runs-Holds, start-cases}

past_gather-reported : (k : Phase) → reported k ≡ true → past_gather k ≡ true
past_gather-reported gather e = cc
past_gather-reported _ e = refl

past_gather-past_await : (k : Phase) → past_await k ≡ true → past_gather k ≡ true
past_gather-past_await gather e = cc
past_gather-past_await _ e = refl

past_await-has_told : (k : Phase) (c : ℕ) → has_told k c ≡ true → past_await k ≡ true
past_await-has_told (acks l) c e = refl
past_await-has_told gather c e = cc
past_await-has_told report c e = cc
past_await-has_told await c e = cc
past_await-has_told _ c e = refl

-- The first instruction, as a number: what a PE does in a phase that is past the report differs from what it started with.
tag : List Instr → ℕ
tag [] = 0
tag (put slot v pe ∷ l) = 1
tag (add slot v pe ∷ l) = 2
tag (wait slot eq v ∷ l) = 3 + v
tag (wait slot c v ∷ l) = 3
tag (_ ∷ l) = 0

module _ {A : Type 0} {t : Shape} (is_tree : IsTree t) {m : Machine A} (h : Holds t m) where
  -- An ack has come down from the root.
  root_gathered :
      (f p : ℕ)
      → t.is_member p ≡ true
      → t.depth p ≤ f
      → past_await (h.phase p) ≡ true
      → past_gather (h.phase t.root) ≡ true
  root_gathered zero p member room e = elim (ℕ_discrete p t.root) [
    | yes at_root ↦ rw⁻¹ at_root (past_gather-past_await (h.phase p) e)
    | no inner ↦ absurd (omega (arith, is_tree.deeper p member inner))
  ]
  root_gathered (suc f) p member room e = elim (ℕ_discrete p t.root) [
    | yes at_root ↦ rw⁻¹ at_root (past_gather-past_await (h.phase p) e)
    | no inner ↦
        root_gathered f (t.parent p) (is_tree.up p member inner).0
          (omega (arith, is_tree.deeper p member inner))
          (past_await-has_told _ p (h.inv.answered p member inner e))
  ]

  -- Reports have come up from everybody.
  reported_of_parent :
      (p : ℕ)
      → t.is_member p ≡ true
      → p ≢ t.root
      → past_gather (h.phase (t.parent p)) ≡ true
      → reported (h.phase p) ≡ true
  reported_of_parent p member inner e =
      let (up, listed) = is_tree.up p member inner in
      count-full _ (t.children (t.parent p)) (h.inv.gathered (t.parent p) up e) p listed

  all_past_gather :
      past_gather (h.phase t.root) ≡ true
      → (f p : ℕ) → t.is_member p ≡ true
      → t.depth p ≤ f
      → past_gather (h.phase p) ≡ true
  all_past_gather top zero p member room = elim (ℕ_discrete p t.root) [
    | yes at_root ↦ rw at_root top
    | no inner ↦ absurd (omega (arith, is_tree.deeper p member inner))
  ]
  all_past_gather top (suc f) p member room = elim (ℕ_discrete p t.root) [
    | yes at_root ↦ rw at_root top
    | no inner ↦ past_gather-reported (h.phase p) (
        reported_of_parent p member inner (
          all_past_gather top f (t.parent p) (is_tree.up p member inner).0
            (omega (arith, is_tree.deeper p member inner))))
  ]

  -- A PE that has gathered, or reported if it is not the root, is past its first instruction.
  tag-acks : (l : List ℕ) → tag (map (ack t) l) ≤ 2
  unfolding tag
  tag-acks [] = omega arith
  tag-acks (c ∷ l) = elim (Bool-cases t.put_acks) [
    | inl e ↦ rw e (omega arith)
    | inr e ↦ rw e (omega arith)
  ]

  leaf_entered :
      (p : ℕ) (k : Phase)
      → length (t.children p) ≡ 0
      → Role t p k
      → reported k ≡ true
      → tag (code t p k) ≢ 2
  unfolding tag
  leaf_entered p gather leaf role on = cc
  leaf_entered p report leaf role on = cc
  leaf_entered p await leaf role on = rw leaf (λ q. omega (arith, q))
  leaf_entered p clear leaf role on = λ q. omega (arith, q)
  leaf_entered p drain leaf role on = λ q. omega (arith, q)
  leaf_entered p (acks []) leaf role on = λ q. omega (arith, q)
  leaf_entered p (acks (c ∷ l)) leaf role on =
      absurd (no_entry (t.children p) leaf (role.1 c (inl refl)))
    where
      no_entry : (xs : List ℕ) → length xs ≡ 0 → ¬ Elem c xs
      no_entry [] e m = m
      no_entry (x ∷ xs) e m = omega (arith, e)

  inner_entered :
      (p : ℕ) (k : Phase)
      → 0 < length (t.children p)
      → past_gather k ≡ true
      → tag (code t p k) ≢ 3 + length (t.children p)
  unfolding tag
  inner_entered p gather inner on = cc
  inner_entered p report inner on = λ q. omega (arith, q)
  inner_entered p await inner on =
      let miss : (length (t.children p) == 0) ≡ false = ground arith in
      rw miss (λ q. omega (arith, q))
  inner_entered p clear inner on = λ q. omega (arith, q)
  inner_entered p drain inner on = λ q. omega (arith, q)
  inner_entered p (acks l) inner on = λ q. omega (arith, q, tag-acks l)

  -- When one PE has been told, every member has entered.
  entered :
      (p q : ℕ)
      → t.is_member p ≡ true
      → t.is_member q ≡ true
      → past_await (h.phase p) ≡ true
      → code t q (h.phase q) ≢ code t q (start t q)
  unfolding tag
  entered p q mp mq e same =
      let top = root_gathered (t.depth p) p mp (omega arith) e in
      let past = all_past_gather top (t.depth q) q mq (omega arith) in
      elim (start-cases is_tree q mq) [
        | inr (at, inner) ↦
            inner_entered q (h.phase q) inner past (ap tag same ∙ ap (λ k. tag (code t q k)) at)
        | inl (at, leaf) ↦
            let not_root : q ≢ t.root =
              λ r. omega (arith, is_tree.root_inner, ap (λ x. length (t.children x)) r, leaf) in
            let up = (is_tree.up q mq not_root).0 in
            leaf_entered q (h.phase q) leaf (h.inv.role q mq)
              (reported_of_parent q mq not_root
                (all_past_gather top (t.depth (t.parent q)) (t.parent q) up (omega arith)))
              (ap tag same ∙ ap (λ k. tag (code t q k)) at)
      ]

  -- A PE with nothing left to do is in its last phase.
  finished : (p : ℕ) (k : Phase) → code t p k ≡ [] → (past_await k ≡ true) × (cleared k ≡ true)
  unfolding tag
  finished p gather e = absurd (omega (arith, ap tag e))
  finished p report e = absurd (omega (arith, ap tag e))
  finished p await e = absurd (omega (arith, ap length e))
  finished p clear e = absurd (omega (arith, ap tag e))
  finished p drain e = absurd (omega (arith, ap tag e))
  finished p (acks l) e = (refl, refl)

-- However the PEs that start the barrier are interleaved: once a PE of the set has run all of its instructions, every
-- PE of the set has run at least its first, and the counter of the PE is 0 again.
pub barrier_safe :
    {A : Type 0} (op : A → A → A) {t : Shape} {m m' : Machine A}
    → IsTree t
    → Started t m
    → Runs op m m'
    → (p : ℕ) → t.is_member p ≡ true
    → m'.prog p ≡ []
    → (counters t m' p ≡ 0) × ((q : ℕ) → t.is_member q ≡ true → m'.prog q ≢ m.prog q)
barrier_safe op {t} is_tree started r p mp done =
    let h = Runs-Holds is_tree op started r in
    let (told, shut) = finished is_tree h p (h.phase p) (sym (h.prog p) ∙ done) in
    (
      h.inv.values p mp ∙ rw shut refl,
      λ q mq same. entered is_tree h p q mp mq told (sym (h.prog q) ∙ same ∙ started.prog q),
    )
