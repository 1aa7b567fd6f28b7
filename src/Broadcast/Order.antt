-- ===== src/Broadcast/Order.antt =====
-- The order in `shmem_internal_bcast_linear` of src/collectives.c: the data, then the acks.
use mathlib.Core.Path.{subst}
use sandia_shmem.Base.{
  ℕ, ◌≡◌, ◌≢◌, refl, ap, sym, ◌∙◌, inl, inr, List, [], ◌∷◌, ◌++◌, some, Elem, ℕ_discrete,
}
use sandia_shmem.Comm.{
  Instr, Store, update, update_self, update-ne, exec, Machine, step-first, Runs, here, next,
}

-- The instruction leaves counter `slot` of PE `p` as it is.
abbrev pub Spares : {A : Type 0} → (A → A → A) → ℕ → Instr → ℕ → ℕ → Type 0
Spares {A} op q i p slot =
    (s s' : Store A) → exec op q i s ≡ some s' → s'.psync p slot ≡ s.psync p slot

-- `l` is what is left of `whole`.
abbrev pub Left : List Instr → List Instr → Type 0
Left l whole = (done : List Instr) × (done ++ l ≡ whole)

-- What is left after the first instruction that is not among `early`, when it begins `later`'s part.
pub late_rest :
    (early later l : List Instr) (i : Instr)
    → ((j : Instr) → Elem j early → j ≢ i)
    → Left (i ∷ l) (early ++ later)
    → Left (i ∷ l) later
late_rest [] later l i apart left = left
late_rest (e ∷ early) later l i apart ([], same) =
    let c : i ≡ e = cc in absurd (apart e (inl refl) (sym c))
late_rest (e ∷ early) later l i apart (d ∷ done, same) =
    let c : done ++ (i ∷ l) ≡ early ++ later = cc in
    late_rest early later l i (λ j m. apart j (inr m)) (done, c)

pub Left-Elem : (l whole : List Instr) (i : Instr) → Left l whole → Elem i l → Elem i whole
Left-Elem l whole i ([], same) m = subst (Elem i) same m
Left-Elem l (w ∷ whole) i (d ∷ done, same) m =
    let c : done ++ l ≡ whole = cc in inr (Left-Elem l whole i (done, c) m)
Left-Elem l [] i (d ∷ done, same) m = absurd cc

-- A list of instructions loses its first ones only.
pub Runs-Left :
    {A : Type 0} (op : A → A → A) {m m' : Machine A} (q : ℕ)
    → Runs op m m'
    → Left (m'.prog q) (m.prog q)
Runs-Left op q here = ([], refl)
Runs-Left op {m} {m'} q (next {a = a} me r e) =
    let (i, rest, s, at, ran, to) = step-first op me a m' e in
    let (done, same) = Runs-Left op q r in
    elim (ℕ_discrete me q) [
      | yes it ↦
          let now : m'.prog q ≡ rest =
            ap (λ x. x.prog q) to
            ∙ ap (update a.prog me rest) (sym it)
            ∙ update_self a.prog me rest in
          let was : a.prog q ≡ i ∷ rest = ap a.prog (sym it) ∙ at in
          (
            done ++ (i ∷ []),
            ap (λ l. (done ++ (i ∷ [])) ++ l) now
                ∙ shift done i rest
                ∙ ap (λ l. done ++ l) (sym was)
                ∙ same,
          )
      | no other ↦
          let now : m'.prog q ≡ a.prog q = ap (λ x. x.prog q) to ∙ update-ne a.prog rest other in
          (done, ap (λ l. done ++ l) now ∙ same)
    ]
  where
    shift :
        (done : List Instr) (i : Instr) (rest : List Instr)
        → (done ++ (i ∷ [])) ++ rest ≡ done ++ (i ∷ rest)
    shift [] i rest = refl
    shift (d ∷ done) i rest = ap (λ l. d ∷ l) (shift done i rest)
