-- ===== src/Comm/Cells.antt =====
-- What is left to do of a PE, in any interleaving, and the instructions that leave a cell of memory as it is; for the
-- collectives of src/collectives.c that move data.
use mathlib.Core.Path.{subst}
use sandia_shmem.Base.{ℕ, ◌≡◌, ap, sym, ◌∙◌, inr, some, Elem, ℕ_discrete}
use sandia_shmem.Comm.{
  Instr, Buffer, Store, update, update_self, update-ne, exec, Machine, step, Runs, here, next,
  step-first,
}

module _ {A : Type 0} (op : A → A → A) where
  -- No PE gets new instructions.
  pub step-Elem :
      (me q : ℕ) (i : Instr) (m m' : Machine A)
      → step op me m ≡ some m'
      → Elem i (m'.prog q)
      → Elem i (m.prog q)
  step-Elem me q i m m' e mem =
      let (j, rest, s, at, ran, to) = step-first op me m m' e in
      elim (ℕ_discrete me q) [
        | yes same ↦
            let new : m'.prog q ≡ rest =
              ap (λ x. x.prog q) to
              ∙ ap (update m.prog me rest) (sym same)
              ∙ update_self m.prog me rest in
            subst (Elem i) (sym (ap m.prog (sym same) ∙ at)) (inr (subst (Elem i) new mem))
        | no other ↦ subst (Elem i) (ap (λ x. x.prog q) to ∙ update-ne m.prog rest other) mem
      ]

  pub Runs-Elem :
      {m m' : Machine A} (q : ℕ) (i : Instr) → Runs op m m' → Elem i (m'.prog q) → Elem i (m.prog q)
  Runs-Elem q i here mem = mem
  Runs-Elem {m' = m'} q i (next {a = a} me r e) mem = Runs-Elem q i r (step-Elem me q i a m' e mem)

  -- An instruction of PE `q` leaves this cell of memory as it is.
  abbrev pub Leaves : ℕ → Instr → ℕ → Buffer → ℕ → Type 0
  Leaves q i p buf x = (s s' : Store A) → exec op q i s ≡ some s' → s'.mem p buf x ≡ s.mem p buf x
