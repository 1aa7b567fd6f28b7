-- ===== src/Broadcast/Instructions.antt =====
-- The PEs that the root of `shmem_internal_bcast_linear`, src/collectives.c, visits, and what its instructions do.
use sandia_shmem.Base.{
  ℕ, zero, suc, ◌+◌, ◌-◌, ◌*◌, ◌<◌, ◌≡◌, ◌≢◌, ◌↔◌, ap, sym, ◌∙◌, inl, inr, true, false, some, Elem,
  arith, ◌==◌, ℕ_discrete, ==_iff,
}
use sandia_shmem.Comm.{
  Instr, Buffer, Store, put, add, wait, put_data, fence, put_wait, target, exec, exec-wait, Cmp,
}
use sandia_shmem.Comm.Cells.{Leaves}
use sandia_shmem.Broadcast.{others_from}
use sandia_shmem.Broadcast.Order.{Spares}

pub others_from_iff :
    (left d pe me c : ℕ)
    → Elem c (others_from left d pe me) ↔ ((c ≢ me) × ((k : ℕ) × (k < left) × (c ≡ pe + d * k)))
unfolding others_from
others_from_iff zero d pe me c = ((λ m. absurd m), (λ (o, (k, lt, e)). absurd (omega (arith, lt))))
others_from_iff (suc left) d pe me c =
    let ih = others_from_iff left d (pe + d) me c in
    let later : (c ≢ me) × ((k : ℕ) × (k < left) × (c ≡ pe + d + d * k))
        → (c ≢ me) × ((k : ℕ) × (k < suc left) × (c ≡ pe + d * k)) =
      λ (o, (k, lt, e)). (o, (k + 1, omega (arith, lt), omega (arith, e))) in
    let sooner : (k : ℕ)
        → k ≢ 0
        → k < suc left
        → c ≡ pe + d * k
        → (j : ℕ) × (j < left) × (c ≡ pe + d + d * j) =
      λ k more lt e.
        let same : k ≡ (k - 1) + 1 = omega (arith, more) in
        (k - 1, omega (arith, lt, more), e ∙ ap (λ x. pe + d * x) same ∙ omega arith) in
    elim (ℕ_discrete pe me) [
      | yes it ↦
          let hit : (pe == me) ≡ true = (==_iff _ _).1 it in
          rw hit (
            (λ m. later (ih.0 m)),
            (λ (o, (k, lt, e)). elim (ℕ_discrete k 0) [
              | yes first ↦ absurd (o (e ∙ ap (λ x. pe + d * x) first ∙ omega (arith, it)))
              | no more ↦ ih.1 (o, sooner k more lt e)
            ]),
          )
      | no other ↦
          let miss : (pe == me) ≡ false = ground arith in
          rw miss (
            (λ m. elim m [
              | inl e ↦ ((λ q. other (sym e ∙ q)), (0, omega arith, e ∙ omega arith))
              | inr rest ↦ later (ih.0 rest)
            ]),
            (λ (o, (k, lt, e)). elim (ℕ_discrete k 0) [
              | yes first ↦ inl (e ∙ ap (λ x. pe + d * x) first ∙ omega arith)
              | no more ↦ inr (ih.1 (o, sooner k more lt e))
            ]),
          )
    ]

module _ {A : Type 0} (op : A → A → A) where
  pub data_sets :
      (w len p x : ℕ) (from : Buffer) (s s' : Store A)
      → x < len
      → exec op w (put_data target 0 from 0 len p) s ≡ some s'
      → s'.mem p target x ≡ s.mem w from x
  unfolding exec
  data_sets w len p x from s s' lt e = ground (arith, e, lt)

  pub data_elsewhere :
      (w len c p x : ℕ) (from buf : Buffer)
      → c ≢ p
      → Leaves op w (put_data target 0 from 0 len c) p buf x
  unfolding exec
  data_elsewhere w len c p x from buf other s s' e = ground (arith, e, other)

  pub data-Spares :
      (w len c p slot : ℕ) (from : Buffer) → Spares op w (put_data target 0 from 0 len c) p slot
  unfolding exec
  data-Spares w len c p slot from s s' e = ground (arith, e)

  pub put-Spares : (w slot v c p : ℕ) → c ≢ p → Spares op w (put slot v c) p slot
  unfolding exec
  put-Spares w slot v c p other s s' e = ground (arith, e, other)

  add-Spares : (w slot v c p : ℕ) → c ≢ p → Spares op w (add slot v c) p slot
  unfolding exec
  add-Spares w slot v c p other s s' e = ground (arith, e, other)

  -- The instruction changes no memory, and no counter but those of its PE and of `top`.
  pub record Calm (q top slot : ℕ) (i : Instr) : Type 0 where
    pub spares : (p : ℕ) → p ≢ q → p ≢ top → Spares op q i p slot
    pub leaves : (p : ℕ) (buf : Buffer) (x : ℕ) → Leaves op q i p buf x

  pub put-Leaves : (q slot v c p x : ℕ) (buf : Buffer) → Leaves op q (put slot v c) p buf x
  unfolding exec
  put-Leaves q slot v c p x buf s s' e = ground (arith, e)

  pub put-Calm : (q top slot v : ℕ) → Calm q top slot (put slot v q)
  put-Calm q top slot v = record {
    spares = λ p o _. put-Spares q slot v q p (λ e. o (sym e));
    leaves = λ p buf x. put-Leaves q slot v q p x buf;
  }

  add-Leaves : (q slot v c p x : ℕ) (buf : Buffer) → Leaves op q (add slot v c) p buf x
  unfolding exec
  add-Leaves q slot v c p x buf s s' e = ground (arith, e)

  pub add-Calm : (q top slot v : ℕ) → Calm q top slot (add slot v top)
  add-Calm q top slot v = record {
    spares = λ p _ o. add-Spares q slot v top p (λ e. o (sym e));
    leaves = λ p buf x. add-Leaves q slot v top p x buf;
  }

  pub wait-Calm : (q top slot j v : ℕ) (c : Cmp) → Calm q top slot (wait j c v)
  wait-Calm q top slot j v c = record {
    spares = λ p _ _ s s' e. ap (λ t. t.psync p slot) (exec-wait op q j c v s s' e).1;
    leaves = λ p buf x s s' e. ap (λ t. t.mem p buf x) (exec-wait op q j c v s s' e).1;
  }

  pub fence-Calm : (q top slot : ℕ) → Calm q top slot fence
  unfolding exec
  fence-Calm q top slot = record {
    spares = λ p _ _ s s' e. ground (arith, e);
    leaves = λ p buf x s s' e. ground (arith, e);
  }

  pub put_wait-Calm : (q top slot : ℕ) → Calm q top slot put_wait
  unfolding exec
  put_wait-Calm q top slot = record {
    spares = λ p _ _ s s' e. ground (arith, e);
    leaves = λ p buf x s s' e. ground (arith, e);
  }
