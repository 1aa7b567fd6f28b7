-- ===== src/Sync/Steps.antt =====
-- The instructions of the barriers over a tree, src/collectives.c, follow the phases: a step of any PE keeps the
-- invariant.
use mathlib.Core.Path.{subst}
use sandia_shmem.Base.{
  ℕ, ◌+◌, ◌≡◌, refl, ap, sym, ◌∙◌, inl, inr, Bool-cases, true, false, List, [], ◌∷◌, map, none,
  some, length, arith, ◌==◌, ℕ_discrete, ==_iff,
}
use sandia_shmem.Comm.{
  Instr, put, add, wait, Cmp, eq, ne, compares, Store, Machine, update, update_self, update-ne,
  set_psync, exec, step, step-inv, step-none, exec-wait, set_psync-slot,
}
use sandia_shmem.Sync.Shape.{
  Shape, IsTree, Phase, gather, report, await, clear, drain, acks, ack, code,
}
use sandia_shmem.Sync.Inv.{Role, Inv}
use sandia_shmem.Sync.Moves.{gather_root, gather_inner}
use sandia_shmem.Sync.Changes.{report_move, await_move, clear_move, drain_move}
use sandia_shmem.Sync.Acks.{ack_move, leaf_counter}

-- The counters of a machine.
abbrev pub counters : {A : Type 0} → Shape → Machine A → ℕ → ℕ
counters t m q = m.store.psync q t.slot

-- Every PE is in a phase, and the counters fit the phases.
pub record Holds {A : Type 0} (t : Shape) (m : Machine A) : Type 0 where
  pub phase : ℕ → Phase
  pub prog : (p : ℕ) → m.prog p ≡ code t p (phase p)
  pub outside : (p : ℕ) → t.is_member p ≡ false → phase p ≡ acks []
  pub inv : Inv t phase (counters t m)

Inv-ext :
    {t : Shape} {ph : ℕ → Phase} {v v' : ℕ → ℕ} → ((q : ℕ) → v' q ≡ v q) → Inv t ph v → Inv t ph v'
Inv-ext same inv = record {
  role = inv.role;
  gathered = inv.gathered;
  answered = inv.answered;
  values = λ p mp. same p ∙ inv.values p mp;
}

module _ {A : Type 0} (op : A → A → A) {t : Shape} (is_tree : IsTree t) {m : Machine A}
    (h : Holds t m) (p : ℕ) (member : t.is_member p ≡ true) where
  advance :
      (k : Phase) {rest : List Instr} {m' : Machine A} {s : Store A} {v : ℕ → ℕ}
      → rest ≡ code t p k
      → m' ≡ record { prog = update m.prog p rest; store = s }
      → ((q : ℕ) → s.psync q t.slot ≡ v q)
      → Inv t (update h.phase p k) v
      → Holds t m'
  advance k {rest} {s = s} same e vs inv = rw e (record {
    phase = update h.phase p k;
    prog = λ q. elim (ℕ_discrete p q) [
      | yes here ↦
          rw⁻¹ here
            (update_self m.prog p rest ∙ same ∙ ap (code t p) (sym (update_self h.phase p k)))
      | no other ↦
          update-ne m.prog rest other ∙ h.prog q ∙ ap (code t q) (sym (update-ne h.phase k other))
    ];
    outside = λ q out. elim (ℕ_discrete p q) [
      | yes here ↦ let f : false ≡ true = sym out ∙ ap t.is_member (sym here) ∙ member in cc
      | no other ↦ update-ne h.phase k other ∙ h.outside q out
    ];
    inv = Inv-ext vs inv;
  })

  -- A wait that ends goes on to the next phase, whose invariant the caller has from the test.
  wait_step :
      (c : Cmp) (bound : ℕ) (k : Phase) {rest : List Instr} {m' : Machine A}
      → m.prog p ≡ wait t.slot c bound ∷ rest
      → rest ≡ code t p k
      → step op p m ≡ some m'
      → (compares c (counters t m p) bound ≡ true → Inv t (update h.phase p k) (counters t m))
      → Holds t m'
  wait_step c bound k {m' = m'} at same e next =
      let (s, runs, to) = step-inv op p m m' at e in
      let (test, kept) = exec-wait op p t.slot c bound m.store s runs in
      advance k same to (λ q. ap (λ x. x.psync q t.slot) kept) (next test)

  -- A write of a counter.
  write_step :
      (i : Instr) (pe new : ℕ) (k : Phase) {rest : List Instr} {m' : Machine A}
      → m.prog p ≡ i ∷ rest
      → rest ≡ code t p k
      → exec op p i m.store
        ≡ some (record m.store { psync = set_psync m.store.psync pe t.slot new })
      → step op p m ≡ some m'
      → Inv t (update h.phase p k) (update (counters t m) pe new)
      → Holds t m'
  write_step i pe new k {m' = m'} at same effect e next =
      let (s, runs, to) = step-inv op p m m' at e in
      let at_s : s ≡ record m.store { psync = set_psync m.store.psync pe t.slot new } =
        the_store (sym runs ∙ effect) in
      advance k same to
        (λ q. ap (λ x. x.psync q t.slot) at_s ∙ set_psync-slot m.store.psync pe t.slot new q) next
    where
      the_store : {a b : Store A} → some a ≡ some b → a ≡ b
      the_store {a} q = ap (λ o. elim o [ none ↦ a | some x ↦ x ]) q

  pub step_from : (k : Phase) {m' : Machine A} → h.phase p ≡ k → step op p m ≡ some m' → Holds t m'
  unfolding exec
  step_from gather {m'} e st = elim (ℕ_discrete p t.root) [
    | yes at_root ↦
        let hit : (p == t.root) ≡ true = (==_iff _ _).1 at_root in
        wait_step eq (length (t.children p)) clear (h.prog p ∙ ap (code t p) e) (rw hit refl) st
          (λ test. gather_root is_tree h.inv p member e at_root ((==_iff _ _).0 test))
    | no inner ↦
        let miss : (p == t.root) ≡ false = ground arith in
        wait_step eq (length (t.children p)) report (h.prog p ∙ ap (code t p) e) (rw miss refl) st
          (λ test. gather_inner is_tree h.inv p member e inner ((==_iff _ _).0 test))
  ]
  step_from report e st =
      write_step (add t.slot 1 (t.parent p)) (t.parent p) (counters t m (t.parent p) + 1) await
        (h.prog p ∙ ap (code t p) e) refl refl st (report_move is_tree h.inv p member e)
  step_from await e st = elim (ℕ_discrete (length (t.children p)) 0) [
    | yes leaf ↦
        let hit : (length (t.children p) == 0) ≡ true = (==_iff _ _).1 leaf in
        wait_step ne 0 clear (h.prog p ∙ ap (code t p) e ∙ rw hit refl) refl st
          (λ test. await_move is_tree h.inv p member e (ground (arith, leaf, test)))
    | no inner ↦
        let miss : (length (t.children p) == 0) ≡ false = ground arith in
        wait_step eq (length (t.children p) + 1) clear (h.prog p ∙ ap (code t p) e ∙ rw miss refl)
          refl st (λ test. await_move is_tree h.inv p member e (ground (arith, test)))
  ]
  step_from clear e st =
      write_step (put t.slot 0 p) p 0 drain (h.prog p ∙ ap (code t p) e) refl refl st
        (clear_move is_tree h.inv p member e)
  step_from drain e st =
      wait_step eq 0 (acks (t.children p)) (h.prog p ∙ ap (code t p) e) refl st
        (λ test. drain_move is_tree h.inv p member e)
  step_from (acks []) {m'} e st =
      let f : none ≡ some m' = sym (step-none op p m (h.prog p ∙ ap (code t p) e)) ∙ st in absurd cc
  step_from (acks (c ∷ l)) e st = elim (Bool-cases t.put_acks) [
    | inl puts ↦
        let leaf : t.children c ≡ [] =
          is_tree.leaves p c puts member
            ((subst (Role t p) e (h.inv.role p member)).1 c (inl refl)) in
        let zero_count = leaf_counter is_tree h.inv p member c l e leaf in
        let one : counters t m c + 1 ≡ 1 = omega (arith, zero_count) in
        write_step (put t.slot 1 c) c 1 (acks l)
          (h.prog p ∙ ap (code t p) e ∙ ap (λ i. i ∷ map (ack t) l) (rw puts refl)) refl refl st
          (subst (λ x. Inv t (update h.phase p (acks l)) (update (counters t m) c x)) one
            (ack_move is_tree h.inv p member c l e))
    | inr adds ↦
        write_step (add t.slot 1 c) c (counters t m c + 1) (acks l)
          (h.prog p ∙ ap (code t p) e ∙ ap (λ i. i ∷ map (ack t) l) (rw adds refl)) refl refl st
          (ack_move is_tree h.inv p member c l e)
  ]
