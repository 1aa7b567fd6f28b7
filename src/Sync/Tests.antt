-- ===== src/Sync/Tests.antt =====
-- Runs of the barriers of src/collectives.c.
use sandia_shmem.Base.{ℕ, ◌+◌, ◌≡◌, refl, [], ◌∷◌, List, arith, ltb, if◌then◌else◌}
use sandia_shmem.Comm.{Instr, put, add, sub_one, wait, quiet, eq, ne, Machine}
use sandia_shmem.Collectives.FullTree.{full_tree}
use sandia_shmem.Sync.{auto, ack_from, sync_linear, sync_tree, sync_dissem, dissem_from, sync}
use sandia_shmem.Sync.Ends.{IsBarrier}
use sandia_shmem.Sync.Linear.{in_set}
use sandia_shmem.Sync.Trees.Full.{full_node, sync_tree-IsBarrier}
use sandia_shmem.Sync.Choice.{sync-IsBarrier}

first_of_three :
    sync_linear 1 2 3 0 1 ≡ wait 0 eq 2 ∷ put 0 0 1 ∷ wait 0 eq 0 ∷ put 0 1 3 ∷ put 0 1 5 ∷ []
unfolding sync_linear ack_from
first_of_three = refl

-- Four PEs need two rounds.
two_rounds :
    sync_dissem 0 1 4 0 3
    ≡ add 0 1 0 ∷ wait 0 ne 0 ∷ sub_one 0 3 ∷ add 1 1 1 ∷ wait 1 ne 0 ∷ sub_one 1 3 ∷ quiet ∷ []
unfolding sync_dissem dissem_from
two_rounds = refl

-- All counters are 0, and the PEs of the set are at the start of the program.
abbrev machine : (ℕ → List Instr) → Machine ℕ
machine prog = record { prog = prog; store = record { psync = λ p i. 0; mem = λ p b i. 0 } }

sync_tree-IsBarrier_example :
    IsBarrier {A = ℕ}
      (λ x y. x + y)
      (λ p. ltb p 5)
      0
      (machine (λ p. if ltb p 5 then sync_tree (full_node (full_tree 5 2 p)) 0 p else []))
sync_tree-IsBarrier_example =
    sync_tree-IsBarrier (λ x y. x + y) 5 2 0 (omega arith) (omega arith)
      (record { prog = λ p. refl; zeros = λ p m. refl })

sync-IsBarrier_example :
    IsBarrier {A = ℕ}
      (λ x y. x + y)
      (in_set 1 2 3)
      0
      (machine (λ p. if in_set 1 2 3 p then sync_linear 1 2 3 0 p else []))
unfolding sync
sync-IsBarrier_example =
    sync-IsBarrier (λ x y. x + y) auto 4 8 2 1 2 3 0
      (record {
        radix = omega arith;
        positive = omega arith;
        two = omega arith;
        inside = omega arith;
      })
      (λ e. cc) (λ p. sync_linear 1 2 3 0 p) (λ p. refl)
      (record { prog = λ p. refl; zeros = λ p m. refl })
