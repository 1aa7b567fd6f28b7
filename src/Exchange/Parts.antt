-- ===== src/Exchange/Parts.antt =====
-- The calls of `shmem_internal_alltoall` and `_alltoalls`, src/collectives.c, as puts, a barrier and the reset of the pSync.
use native.Mathlib.Nat.{mul-div_cancel_left, mul-le-mul_right}
use sandia_shmem.Base.{
  ℕ, ◌+◌, ◌-◌, ◌*◌, ◌/◌, ◌<◌, ◌≤◌, ◌≡◌, ◌≢◌, refl, ap, sym, ◌∙◌, ◌⊎◌, inl, inr, true, List, [], ◌∷◌,
  ◌++◌, Option, none, some, Elem, arith, if◌then◌else◌, dec_lt, Option-cases, none_some,
  some-injective,
}
use sandia_shmem.Comm.{Instr, quiet, Machine}
use sandia_shmem.Sync.{CollType, dissem, sync}
use sandia_shmem.Sync.Ends.{Calls}
use sandia_shmem.Sync.Linear.{in_set, in_set_iff}
use sandia_shmem.Sync.Choice.{tree_node, InJob, sync-IsBarrier}
use sandia_shmem.Exchange.{clear_psync, barrier, then_barrier}
use sandia_shmem.Exchange.Peers.{at_index}
use sandia_shmem.Exchange.Delivery.{block, Exchanges}

-- The instructions of a call of `sync` that is legal.
abbrev pub run_of : Option (List Instr) → List Instr
run_of none = []
run_of (some l) = l

module _ (s d z : ℕ) (positive : 0 < d) where
  pub rank : (k : ℕ) → (at_index s d z positive k - s) / d ≡ k
  rank k = ap (λ x. x / d) (omega arith) ∙ mul-div_cancel_left k positive

  pub index_member : (k : ℕ) → k < z → in_set s d z (at_index s d z positive k) ≡ true
  index_member k lt = (in_set_iff s d z (at_index s d z positive k) positive).1 (k, lt, refl)

  pub member_index :
      (p : ℕ) → in_set s d z p ≡ true → (k : ℕ) × (k < z) × (p ≡ at_index s d z positive k)
  member_index p member = (in_set_iff s d z p positive).0 member

-- Blocks of one length at different indices do not meet.
pub block_apart :
    (len k l x : ℕ) → k ≢ l → x < len → (k * len + x < l * len) ⊎ (l * len + len ≤ k * len + x)
block_apart len k l x other lt = elim (dec_lt k l) [
  | yes less ↦
      let wide : (k + 1) * len ≤ l * len = mul-le-mul_right len (omega (arith, less)) in
      inl (omega (arith, wide, lt))
  | no ge ↦
      let wide : (l + 1) * len ≤ k * len = mul-le-mul_right len (omega (arith, other, ge)) in
      inr (omega (arith, wide))
]

pub block_parts :
    {o f l p o' f' l' p' : ℕ} → block o f l p ≡ block o' f' l' p' → (o ≡ o') × (l ≡ l') × (p ≡ p')
block_parts e = (cc, cc, cc)

module _ {A : Type 0} (op : A → A → A) (type : CollType) (crossover sync_size n r s d z slot : ℕ)
    {m : Machine A} (job : InJob n r s d z) (legal : type ≢ dissem) (program puts : ℕ → List Instr)
    (runs : (p : ℕ)
      → then_barrier type crossover sync_size (tree_node n r s d z p) s d z slot p (puts p)
        ≡ some (program p))
    (calls : Calls (in_set s d z) slot program m) where
  abbrev pub barrier_part : ℕ → List Instr
  barrier_part p = run_of (sync type crossover (tree_node n r s d z p) s d z slot p)

  program_parts :
      (p : ℕ)
      → (sync type crossover (tree_node n r s d z p) s d z slot p ≡ some (barrier_part p))
        × (program p ≡ puts p ++ (quiet ∷ (barrier_part p ++ clear_psync sync_size slot p)))
  unfolding then_barrier barrier
  program_parts p = elim (Option-cases (sync type crossover (tree_node n r s d z p) s d z slot p)) [
    | inl illegal ↦
        none_some
          {x = then_barrier type crossover sync_size (tree_node n r s d z p) s d z slot p (puts p)}
          (rw (then_barrier, barrier, illegal) refl) (runs p)
    | inr (rest, e) ↦
        let out : then_barrier type crossover sync_size (tree_node n r s d z p) s d z slot p
              (puts p)
            ≡ some (puts p ++ ((quiet ∷ rest) ++ clear_psync sync_size slot p)) =
          rw (then_barrier, barrier, e) refl in
        (
          e ∙ ap (λ o. some (run_of o)) (sym e),
          some-injective (sym (runs p) ∙ out)
              ∙ ap (λ o. puts p ++ (quiet ∷ (run_of o ++ clear_psync sync_size slot p))) (sym e),
        )
  ]

  pub then_barrier-Exchanges :
      ((p : ℕ) (i : Instr)
        → Elem i (puts p)
        → (o : ℕ) × (f : ℕ) × (len : ℕ) × (c : ℕ) × (i ≡ block o f len c))
      → Exchanges op (in_set s d z) slot sync_size puts barrier_part m
  then_barrier-Exchanges blocks = record {
    prog = λ p. calls.prog p ∙ ap (λ l. if in_set s d z p then l else []) (program_parts p).1;
    blocks = blocks;
    barrier =
        sync-IsBarrier op type crossover n r s d z slot job legal barrier_part
          (λ p. (program_parts p).0) (record { prog = λ p. refl; zeros = calls.zeros });
  }
