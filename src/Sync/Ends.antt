-- ===== src/Sync/Ends.antt =====
-- A barrier over a tree ends, src/collectives.c; and what a barrier promises.
use mathlib.Core.Path.{subst}
use sandia_shmem.Base.{
  ℕ, suc, ◌+◌, ◌≤◌, ◌≡◌, ◌≢◌, refl, ap, sym, ◌∙◌, inl, inr, Bool, Bool-cases, true, false, List, [],
  ◌∷◌, some, length, arith, ◌==◌, if◌then◌else◌, ℕ_discrete, ==_iff, Elem, map,
}
use sandia_shmem.Comm.{
  Instr, Machine, update, update_self, update-ne, step, Runs, taken, here, next, Touches,
  step-first,
}
use sandia_shmem.Sync.Shape.{
  Shape, IsTree, code, start, Phase, code_drain, code_clear, acked_wait, code_report, acks, ack,
  gather, report, await, clear, drain,
}
use sandia_shmem.Sync.Safety.{Started}
use sandia_shmem.Sync.Barrier.{barrier_safe}
use sandia_shmem.Sync.Progress.{barrier_progress}

-- A step takes the first instruction off the list of its PE, and leaves the other lists.
step-length :
    {A : Type 0} (op : A → A → A) (me p : ℕ) (m m' : Machine A)
    → step op me m ≡ some m'
    → length (m.prog p) ≡ (if me == p then suc (length (m'.prog p)) else length (m'.prog p))
step-length op me p m m' e =
    let (i, rest, s, at, ran, to) = step-first op me m m' e in
    elim (ℕ_discrete me p) [
      | yes same ↦
          let hit : (me == p) ≡ true = (==_iff _ _).1 same in
          let old : m.prog p ≡ i ∷ rest = ap m.prog (sym same) ∙ at in
          let new : m'.prog p ≡ rest =
            ap (λ x. x.prog p) to
            ∙ ap (update m.prog me rest) (sym same)
            ∙ update_self m.prog me rest in
          rw hit (rw old (rw new refl))
      | no other ↦
          let miss : (me == p) ≡ false = ground arith in
          let new : m'.prog p ≡ m.prog p = ap (λ x. x.prog p) to ∙ update-ne m.prog rest other in
          rw miss (rw new refl)
    ]

pub taken-length :
    {A : Type 0} {op : A → A → A} {m m' : Machine A} (p : ℕ) (r : Runs op m m')
    → taken p r + length (m'.prog p) ≡ length (m.prog p)
taken-length p here = omega arith
taken-length {op = op} {m' = m'} p (next {a = a} me r e) =
    ground (arith, taken-length p r, step-length op me p a m' e)

ack-Touches : (t : Shape) (c : ℕ) → Touches t.slot (ack t c)
ack-Touches t c = elim (Bool-cases t.put_acks) [ inl puts ↦ rw puts refl | inr adds ↦ rw adds refl ]

acks-Touches : (t : Shape) (l : List ℕ) (i : Instr) → Elem i (map (ack t) l) → Touches t.slot i
acks-Touches t [] i m = absurd m
acks-Touches t (c ∷ l) i m = elim m [
  | inl e ↦ subst (Touches t.slot) (sym e) (ack-Touches t c)
  | inr later ↦ acks-Touches t l i later
]

module _ (t : Shape) (p : ℕ) where
  on_drain : (i : Instr) → Elem i (code_drain t p) → Touches t.slot i
  on_drain i (inl e) = subst (Touches t.slot) (sym e) refl
  on_drain i (inr m) = acks-Touches t (t.children p) i m

  on_clear : (i : Instr) → Elem i (code_clear t p) → Touches t.slot i
  on_clear i (inl e) = subst (Touches t.slot) (sym e) refl
  on_clear i (inr m) = on_drain i m

  on_acked : Touches t.slot (acked_wait t p)
  on_acked = elim (Bool-cases (length (t.children p) == 0)) [
    | inl leaf ↦ rw leaf refl
    | inr inner ↦ rw inner refl
  ]

  on_report : (i : Instr) → Elem i (code_report t p) → Touches t.slot i
  on_report i (inl e) = subst (Touches t.slot) (sym e) refl
  on_report i (inr (inl e)) = subst (Touches t.slot) (sym e) on_acked
  on_report i (inr (inr m)) = on_clear i m

  code-Touches : (k : Phase) (i : Instr) → Elem i (code t p k) → Touches t.slot i
  code-Touches (acks l) i m = acks-Touches t l i m
  code-Touches drain i m = on_drain i m
  code-Touches clear i m = on_clear i m
  code-Touches await i (inl e) = subst (Touches t.slot) (sym e) on_acked
  code-Touches await i (inr m) = on_clear i m
  code-Touches report i m = on_report i m
  code-Touches gather i (inl e) = subst (Touches t.slot) (sym e) refl
  code-Touches gather i (inr m) = elim (Bool-cases (p == t.root)) [
    | inl top ↦
        on_clear i (subst (λ b. Elem i (if b then code_clear t p else code_report t p)) top m)
    | inr inner ↦
        on_report i (subst (λ b. Elem i (if b then code_clear t p else code_report t p)) inner m)
  ]

-- What a barrier of these PEs promises from the machine `m` on, in every run.
pub record IsBarrier {A : Type 0} (op : A → A → A) (is_member : ℕ → Bool) (slot : ℕ) (m : Machine A)
    : Type 0 where
  -- A PE that is through finds its counter reset, and everyone has entered.
  pub safe :
      (m' : Machine A)
      → Runs op m m'
      → (p : ℕ) → is_member p ≡ true
      → m'.prog p ≡ []
      → (m'.store.psync p slot ≡ 0) × ((q : ℕ) → is_member q ≡ true → m'.prog q ≢ m.prog q)
  -- While someone is not through, someone can go on.
  pub live :
      (m' : Machine A)
      → Runs op m m'
      → (p : ℕ) → is_member p ≡ true
      → m'.prog p ≢ []
      → (q : ℕ) × (m'' : Machine A) × (step op q m' ≡ some m'')
  -- The PEs share nothing but this counter.
  pub alone : (p : ℕ) (i : Instr) → Elem i (m.prog p) → Touches slot i
  -- No PE goes on for ever.
  pub short : (m' : Machine A) (r : Runs op m m') (p : ℕ) → taken p r ≤ length (m.prog p)

-- PEs that start the code of a barrier over a tree, with their counters at 0, keep the promise of a barrier: in every
-- run, a PE that is through finds its counter at 0 and every PE of the tree past its first
-- instruction, somebody can go on while a PE is not through, and no PE runs more than its list.
pub tree-IsBarrier :
    {A : Type 0} (op : A → A → A) {t : Shape} {m : Machine A}
    → IsTree t
    → Started t m
    → IsBarrier op t.is_member t.slot m
tree-IsBarrier op {t = t} is_tree started = record {
  safe = λ m' r p member done. barrier_safe op is_tree started r p member done;
  live = λ m' r p member left. barrier_progress op is_tree started r p member left;
  alone = λ p i e. code-Touches t p (start t p) i (subst (Elem i) (started.prog p) e);
  short = λ m' r p. omega (arith, taken-length p r);
}

-- The PEs of a set are about to run these instructions, the others do nothing, and the counters are 0.
pub record Calls {A : Type 0} (is_member : ℕ → Bool) (slot : ℕ) (program : ℕ → List Instr)
    (m : Machine A) : Type 0 where
  pub prog : (p : ℕ) → m.prog p ≡ (if is_member p then program p else [])
  pub zeros : (p : ℕ) → is_member p ≡ true → m.store.psync p slot ≡ 0

-- Such a call starts the barrier over a tree whose code the instructions are.
pub Calls-Started :
    {A : Type 0} {t : Shape} {program : ℕ → List Instr} {m : Machine A}
    → ((p : ℕ) → t.is_member p ≡ true → program p ≡ code t p (start t p))
    → Calls t.is_member t.slot program m
    → Started t m
Calls-Started {t = t} {program} {m} same calls = record {
  prog = λ p. elim (Bool-cases (t.is_member p)) [
    | inl member ↦ calls.prog p ∙ rw member (same p member ∙ rw member refl)
    | inr out ↦ calls.prog p ∙ rw out refl
  ];
  zeros = calls.zeros;
}
