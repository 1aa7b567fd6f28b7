-- ===== src/Exchange/Instructions.antt =====
-- What single instructions of `shmem_internal_alltoall` and `_alltoalls`, src/collectives.c, do to counters and memory.
use sandia_shmem.Base.{
  ℕ, zero, suc, ◌+◌, ◌<◌, ◌≤◌, ◌≡◌, ◌≢◌, refl, ap, ◌⊎◌, inl, inr, some, Elem, arith,
}
use sandia_shmem.Comm.{
  Instr, put, put_data, quiet, source, target, Store, exec, Touches, Buffer, add, wait, exec-wait,
  sub_one, copy, atomicv, reduce_local, fence, put_wait,
}
use sandia_shmem.Comm.Cells.{Leaves}
use sandia_shmem.Sync.Framed.{Silent, Resets}
use sandia_shmem.Sync.Framed.Live.{Free}
use sandia_shmem.Exchange.{clear_psync}

module _ {A : Type 0} (op : A → A → A) where
  pub put_data-Silent : (slot p o f len q : ℕ) → Silent op slot p (put_data target o source f len q)
  unfolding exec
  put_data-Silent slot p o f len q s s' e r = ground (arith, e)

  pub quiet-Silent : (slot p : ℕ) → Silent op slot p quiet
  unfolding exec
  quiet-Silent slot p s s' e r = ground (arith, e)

  pub put-Resets : (slot p i : ℕ) → Resets op slot p (put i 0 p)
  unfolding exec
  put-Resets slot p i s s' zero_now e q = ground (arith, e, zero_now)

  -- `clear_psync` is made of such stores.
  pub Elem-clear_psync :
      (left slot p : ℕ) (i : Instr) → Elem i (clear_psync left slot p) → (j : ℕ) × (i ≡ put j 0 p)
  unfolding clear_psync
  Elem-clear_psync zero slot p i m = absurd m
  Elem-clear_psync (suc left) slot p i m = elim m [
    | inl e ↦ (slot, e)
    | inr later ↦ Elem-clear_psync left (slot + 1) p i later
  ]

  -- The instruction leaves all memory as it is.
  abbrev pub Idle : ℕ → Instr → Type 0
  Idle q i = (p : ℕ) (buf : Buffer) (x : ℕ) → Leaves op q i p buf x

  pub Touches-Idle : (slot q : ℕ) (i : Instr) → Touches slot i → Idle q i
  unfolding exec
  Touches-Idle slot q (put j v pe) at p buf x s s' e = ground (arith, e)
  Touches-Idle slot q (add j v pe) at p buf x s s' e = ground (arith, e)
  Touches-Idle slot q (wait j c v) at p buf x s s' e =
      ap (λ t. t.mem p buf x) (exec-wait op q j c v s s' e).1
  Touches-Idle slot q (sub_one j pe) at p buf x s s' e = absurd at
  Touches-Idle slot q (put_data c o b f len pe) at p buf x s s' e = absurd at
  Touches-Idle slot q (copy c o b f len) at p buf x s s' e = absurd at
  Touches-Idle slot q (atomicv c b len pe) at p buf x s s' e = absurd at
  Touches-Idle slot q (reduce_local c o b f len) at p buf x s s' e = absurd at
  Touches-Idle slot q fence at p buf x s s' e = absurd at
  Touches-Idle slot q quiet at p buf x s s' e = absurd at
  Touches-Idle slot q put_wait at p buf x s s' e = absurd at

  pub quiet-Idle : (q : ℕ) → Idle q quiet
  unfolding exec
  quiet-Idle q p buf x s s' e = ground (arith, e)

  -- A put writes the elements of its range, of its PE, and no others.
  pub put_data-sets :
      (w o f len p x : ℕ) (s s' : Store A)
      → x < len
      → exec op w (put_data target o source f len p) s ≡ some s'
      → s'.mem p target (o + x) ≡ s.mem w source (f + x)
  unfolding exec
  put_data-sets w o f len p x s s' lt e = ground (arith, e, lt)

  pub put_data-other :
      (w o f len q p x : ℕ)
      → (q ≢ p) ⊎ (x < o) ⊎ (o + len ≤ x)
      → Leaves op w (put_data target o source f len q) p target x
  unfolding exec
  put_data-other w o f len q p x apart s s' e = ground (arith, e, apart)

  pub put_data-source :
      (w o f len q p x : ℕ) → Leaves op w (put_data target o source f len q) p source x
  unfolding exec
  put_data-source w o f len q p x s s' e = ground (arith, e)

  pub put_data-Free : (p o f len c : ℕ) → Free op p (put_data target o source f len c)
  unfolding exec
  put_data-Free p o f len c st = (_, refl)

  pub quiet-Free : (p : ℕ) → Free op p quiet
  unfolding exec
  quiet-Free p st = (st, refl)

  pub put-Free : (p j v q : ℕ) → Free op p (put j v q)
  unfolding exec
  put-Free p j v q st = (_, refl)
