-- ===== src/Sync/Progress.antt =====
-- A barrier over a tree does not get stuck, and ends: src/collectives.c.
use mathlib.Core.Path.{subst}
use sandia_shmem.Base.{
  ℕ, zero, suc, ◌+◌, ◌<◌, ◌≡◌, ◌≢◌, refl, ap, ◌∙◌, ◌⊎◌, inl, inr, Bool-cases, true, false, List, [],
  ◌∷◌, map, some, length, arith, ◌==◌, ℕ_discrete, ==_iff,
}
use sandia_shmem.Comm.{
  Instr, put, add, wait, Cmp, eq, ne, compares, Store, Machine, exec, step, step-some, Runs,
}
use sandia_shmem.Sync.Count.{count-cases}
use sandia_shmem.Sync.Shape.{
  Shape, IsTree, Phase, gather, report, await, clear, drain, acks, ack, acked_wait, code,
  code_clear, reported, past_gather, has_told,
}
use sandia_shmem.Sync.Inv.{Role, reports, told}
use sandia_shmem.Sync.Moves.{told-zero}
use sandia_shmem.Sync.Steps.{Holds, counters}
use sandia_shmem.Sync.Safety.{Started, Runs-Holds}

module _ {A : Type 0} (op : A → A → A) {t : Shape} (is_tree : IsTree t) {m : Machine A}
    (h : Holds t m) where
  -- Some PE can run its next instruction.
  abbrev Enabled : Type 0
  Enabled = (q : ℕ) × (m' : Machine A) × (step op q m ≡ some m')

  runs :
      (p : ℕ) {i : Instr} {rest : List Instr} {s : Store A}
      → m.prog p ≡ i ∷ rest
      → exec op p i m.store ≡ some s
      → Enabled
  runs p at e = (p, _, step-some op p m at e)

  wait_ends :
      (p : ℕ) (c : Cmp) (bound : ℕ) {rest : List Instr}
      → m.prog p ≡ wait t.slot c bound ∷ rest
      → compares c (counters t m p) bound ≡ true
      → Enabled
  unfolding exec
  wait_ends p c bound at test =
      let e : exec op p (wait t.slot c bound) m.store ≡ some m.store = rw test refl in runs p at e

  at : (p : ℕ) {k : Phase} → h.phase p ≡ k → m.prog p ≡ code t p k
  at p e = h.prog p ∙ ap (code t p) e

  -- These phases wait for nobody.
  report_runs : (p : ℕ) → h.phase p ≡ report → Enabled
  unfolding exec
  report_runs p e = runs p {i = add t.slot 1 (t.parent p)} (at p e) refl

  clear_runs : (p : ℕ) → h.phase p ≡ clear → Enabled
  unfolding exec
  clear_runs p e = runs p {i = put t.slot 0 p} (at p e) refl

  drain_runs : (p : ℕ) → t.is_member p ≡ true → h.phase p ≡ drain → Enabled
  drain_runs p member e =
      let none_left : counters t m p ≡ 0 = h.inv.values p member ∙ rw e refl in
      wait_ends p eq 0 (at p e) ((==_iff _ _).1 none_left)

  acks_runs : (p c : ℕ) (l : List ℕ) → h.phase p ≡ acks (c ∷ l) → Enabled
  unfolding exec
  acks_runs p c l e = elim (Bool-cases t.put_acks) [
    | inl puts ↦
        runs p {i = put t.slot 1 c} (at p e ∙ ap (λ i. i ∷ map (ack t) l) (rw puts refl)) refl
    | inr adds ↦
        runs p {i = add t.slot 1 c} (at p e ∙ ap (λ i. i ∷ map (ack t) l) (rw adds refl)) refl
  ]

  unreported :
      (c : ℕ) (k : Phase)
      → h.phase c ≡ k
      → reported k ≡ false
      → (h.phase c ≡ gather) ⊎ (h.phase c ≡ report)
  unreported c gather e off = inl e
  unreported c report e off = inr e
  unreported c await e off = cc
  unreported c clear e off = cc
  unreported c drain e off = cc
  unreported c (acks l) e off = cc

  -- A PE that waits for its children can go on, or some PE below it can.
  gather_runs :
      (f p : ℕ) → t.is_member p ≡ true → h.phase p ≡ gather → t.height < t.depth p + f → Enabled
  gather_runs zero p member e room = absurd (omega (arith, is_tree.bounded p member))
  gather_runs (suc f) p member e room =
      elim (count-cases (λ c. reported (h.phase c)) (t.children p)) [
        | inl full ↦
            let off = told-zero is_tree h.inv p member (ap reported e) in
            let old : counters t m p ≡ reports t h.phase p + told t h.phase p =
              h.inv.values p member ∙ rw e refl in
            wait_ends p eq (length (t.children p)) (at p e)
              ((==_iff _ _).1 (omega (arith, off, old, full)))
        | inr (c, listed, off) ↦
            let (in_tree, up, inner) = is_tree.down p c member listed in
            elim (unreported c (h.phase c) refl off) [
              | inl waits ↦
                  gather_runs f c in_tree waits
                    (omega (arith, is_tree.deeper c in_tree inner, ap t.depth up, room))
              | inr about ↦ report_runs c about
            ]
      ]

  gather_some : (p : ℕ) → t.is_member p ≡ true → h.phase p ≡ gather → Enabled
  gather_some p member e = gather_runs (t.height + 1) p member e (omega arith)

  -- A PE that has been told can go on.
  told_runs :
      (p : ℕ)
      → t.is_member p ≡ true
      → p ≢ t.root
      → h.phase p ≡ await
      → has_told (h.phase (t.parent p)) p ≡ true
      → Enabled
  told_runs p member inner e e_told =
      let miss : (p == t.root) ≡ false = ground arith in
      let one : told t h.phase p ≡ 1 = rw miss (rw e_told refl) in
      let full = h.inv.gathered p member (ap past_gather e) in
      let old : counters t m p ≡ reports t h.phase p + told t h.phase p =
        h.inv.values p member ∙ rw e refl in
      elim (ℕ_discrete (length (t.children p)) 0) [
        | yes leaf ↦
            let hit : (length (t.children p) == 0) ≡ true = (==_iff _ _).1 leaf in
            let high : counters t m p ≢ 0 = λ q. omega (arith, q, old, one) in
            let first : acked_wait t p ≡ wait t.slot ne 0 = rw hit refl in
            wait_ends p ne 0 (at p e ∙ ap (λ i. i ∷ code_clear t p) first) (ground (arith, high))
        | no some_left ↦
            let hit : (length (t.children p) == 0) ≡ false = ground arith in
            let first : acked_wait t p ≡ wait t.slot eq (length (t.children p) + 1) = rw hit refl in
            wait_ends p eq (length (t.children p) + 1) (at p e ∙ ap (λ i. i ∷ code_clear t p) first)
              ((==_iff _ _).1 (omega (arith, old, one, full)))
      ]

  -- A PE that waits for its parent can go on, or some PE above it or beside it can.
  await_runs : (f p : ℕ) → t.is_member p ≡ true → h.phase p ≡ await → t.depth p < f → Enabled
  await_runs zero p member e room = absurd (omega arith)
  await_runs (suc f) p member e room =
      let inner : p ≢ t.root = subst (Role t p) e (h.inv.role p member) in
      let (up, listed) = is_tree.up p member inner in
      elim (Bool-cases (has_told (h.phase (t.parent p)) p)) [
        | inl e_told ↦ told_runs p member inner e e_told
        | inr untold ↦ above p (h.phase (t.parent p)) refl untold up (λ e'.
            await_runs f (t.parent p) up e' (omega (arith, is_tree.deeper p member inner, room)))
      ]
    where
      above :
          (p : ℕ) (k : Phase)
          → h.phase (t.parent p) ≡ k
          → has_told k p ≡ false
          → t.is_member (t.parent p) ≡ true
          → (h.phase (t.parent p) ≡ await → Enabled)
          → Enabled
      above p gather e off up ih = gather_some (t.parent p) up e
      above p report e off up ih = report_runs (t.parent p) e
      above p await e off up ih = ih e
      above p clear e off up ih = clear_runs (t.parent p) e
      above p drain e off up ih = drain_runs (t.parent p) up e
      above p (acks []) e off up ih = cc
      above p (acks (c ∷ l)) e off up ih = acks_runs (t.parent p) c l e

  -- While a member has something left to do, some PE can run.
  some_runs : (p : ℕ) (k : Phase) → t.is_member p ≡ true → h.phase p ≡ k → m.prog p ≢ [] → Enabled
  some_runs p gather member e left = gather_some p member e
  some_runs p report member e left = report_runs p e
  some_runs p await member e left = await_runs (t.depth p + 1) p member e (omega arith)
  some_runs p clear member e left = clear_runs p e
  some_runs p drain member e left = drain_runs p member e
  some_runs p (acks []) member e left = absurd (left (at p e))
  some_runs p (acks (c ∷ l)) member e left = acks_runs p c l e

-- However the PEs that start the barrier have been interleaved: as long as a PE of the set has instructions left, some
-- PE can run its next instruction, so the barrier is never stuck.
pub barrier_progress :
    {A : Type 0} (op : A → A → A) {t : Shape} {m m' : Machine A}
    → IsTree t
    → Started t m
    → Runs op m m'
    → (p : ℕ) → t.is_member p ≡ true
    → m'.prog p ≢ []
    → (q : ℕ) × (m'' : Machine A) × (step op q m' ≡ some m'')
barrier_progress op {t} is_tree started r p member left =
    let h = Runs-Holds is_tree op started r in some_runs op is_tree h p (h.phase p) member refl left
