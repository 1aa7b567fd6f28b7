-- ===== src/Exchange/Tests.antt =====
-- Runs of the exchanges of src/collectives.c.
use sandia_shmem.Base.{
  length, ℕ, ◌+◌, ◌*◌, ◌≡◌, refl, [], ◌∷◌, List, Option, none, some, true, arith, if◌then◌else◌,
  ◌≢◌, ◌≤◌, length, false,
}
use sandia_shmem.Base.Int.{◌+ℤ◌, ◌*ℤ◌, ◌-ℤ◌}
use sandia_shmem.Comm.{
  Instr, target, Machine, step, exec, Runs, here, schedule, schedule-Runs, taken,
}
use sandia_shmem.Comm.Flight.{
  Flight, ready, Move, call, arrival, fly, fly-Flights, advance, begin, deliver, pick, flies,
  completes, outstanding,
}
use sandia_shmem.Collectives.Circular.{circular_iter_next}
use sandia_shmem.Sync.{linear, ack_from, sync_linear, sync}
use sandia_shmem.Sync.Linear.{in_set}
use sandia_shmem.Sync.Choice.{tree_node}
use sandia_shmem.Exchange.{
  next_peer, peers_from, peers, clear_psync, barrier, then_barrier, alltoall_put, alltoall,
  elements_from, alltoalls_puts, alltoalls,
}
use sandia_shmem.Exchange.Parts.{run_of}
use sandia_shmem.Exchange.Alltoall.{alltoall_lem, alltoall-ends}
use sandia_shmem.Exchange.Alltoalls.{alltoalls_lem, alltoalls-ends}

-- PE `p` has 10 * p + i at place i of its source.
abbrev machine : (ℕ → List Instr) → Machine ℕ
machine prog = record {
  prog = prog;
  store = record { psync = λ p i. 0; mem = λ p b i. 10 * p + i };
}

abbrev alltoall_program : ℕ → List Instr
alltoall_program p = run_of (alltoall linear 4 1 (tree_node 4 2 1 2 2 p) 2 1 2 2 0 p)

abbrev alltoall_start : Machine ℕ
alltoall_start = machine (λ p. if in_set 1 2 2 p then alltoall_program p else [])

-- PE 3 enters the barrier first, and PE 1 is the first to return.
abbrev order : List ℕ
order = 3 ∷ 3 ∷ 3 ∷ 3 ∷ 1 ∷ 1 ∷ 1 ∷ 1 ∷ 1 ∷ 1 ∷ 1 ∷ 1 ∷ []

abbrev machine_of : Option (Machine ℕ) → Machine ℕ
machine_of none = machine (λ p. [])
machine_of (some m) = m

alltoall_run :
    schedule (λ x y. x + y) order alltoall_start
    ≡ some (machine_of (schedule (λ x y. x + y) order alltoall_start))
unfolding schedule step exec alltoall then_barrier barrier sync sync_linear ack_from clear_psync
    alltoall_put peers peers_from next_peer circular_iter_next ◌+ℤ◌ ◌*ℤ◌ ◌-ℤ◌
alltoall_run = refl

-- The puts of PE 3 arrive in the other order, before its quiet ends.
abbrev moves : List Move
moves =
    call 3
    ∷ call 3
    ∷ arrival 1
    ∷ call 1
    ∷ arrival 1
    ∷ call 3
    ∷ call 3
    ∷ call 1
    ∷ arrival 0
    ∷ arrival 0
    ∷ call 1
    ∷ call 1
    ∷ call 1
    ∷ call 1
    ∷ call 1
    ∷ call 1
    ∷ []

-- Nothing in flight.
abbrev calm : Machine ℕ → Flight ℕ
calm m = record { machine = m; pending = [] }

abbrev flight_of : Option (Flight ℕ) → Flight ℕ
flight_of none = calm (machine (λ p. []))
flight_of (some f) = f

abbrev alltoall_end : Flight ℕ
alltoall_end = flight_of (fly (λ x y. x + y) false moves (calm alltoall_start))

alltoall_flies : fly (λ x y. x + y) false moves (calm alltoall_start) ≡ some alltoall_end
unfolding fly advance begin deliver pick flies completes outstanding exec alltoall then_barrier
    barrier sync sync_linear ack_from clear_psync alltoall_put peers peers_from next_peer
    circular_iter_next ◌+ℤ◌ ◌*ℤ◌ ◌-ℤ◌
alltoall_flies = refl

-- While a put of PE 3 is in flight, its quiet does not end.
quiet_waits :
    fly (λ x y. x + y) false (call 3 ∷ call 3 ∷ arrival 1 ∷ call 3 ∷ []) (calm alltoall_start)
    ≡ none
unfolding fly advance begin deliver pick flies completes outstanding exec alltoall then_barrier
    barrier sync sync_linear ack_from clear_psync alltoall_put peers peers_from next_peer
    circular_iter_next ◌+ℤ◌ ◌*ℤ◌ ◌-ℤ◌
quiet_waits = refl

alltoall_lem_example : alltoall_end.machine.store.mem 3 target 1 ≡ 13
unfolding fly advance begin deliver pick flies completes outstanding exec alltoall then_barrier
    barrier sync sync_linear ack_from clear_psync alltoall_put peers peers_from next_peer
    circular_iter_next ◌+ℤ◌ ◌*ℤ◌ ◌-ℤ◌
alltoall_lem_example =
    alltoall_lem (λ x y. x + y) false linear 4 1 4 2 1 2 2 2 0
      (record {
        radix = omega arith;
        positive = omega arith;
        two = omega arith;
        inside = omega arith;
      })
      (λ e. cc) alltoall_program (λ p. refl) (record { prog = λ p. refl; zeros = λ p m. refl })
      (fly-Flights (λ x y. x + y) false moves (calm alltoall_start) alltoall_end ready
        alltoall_flies)
      1 refl refl 0 1 1 (omega arith) (omega arith) (omega arith)

abbrev alltoalls_program : ℕ → List Instr
alltoalls_program p = run_of (alltoalls linear 4 1 (tree_node 4 2 1 2 2 p) 2 1 1 2 1 2 2 0 p)

abbrev alltoalls_start : Machine ℕ
alltoalls_start = machine (λ p. if in_set 1 2 2 p then alltoalls_program p else [])

abbrev longer_order : List ℕ
longer_order = 3 ∷ 3 ∷ 3 ∷ 3 ∷ 3 ∷ 3 ∷ 1 ∷ 1 ∷ 1 ∷ 1 ∷ 1 ∷ 1 ∷ 1 ∷ 1 ∷ 1 ∷ 1 ∷ []

alltoalls_run :
    schedule (λ x y. x + y) longer_order alltoalls_start
    ≡ some (machine_of (schedule (λ x y. x + y) longer_order alltoalls_start))
unfolding schedule step exec alltoalls alltoalls_puts elements_from then_barrier barrier sync
    sync_linear ack_from clear_psync peers peers_from next_peer circular_iter_next ◌+ℤ◌ ◌*ℤ◌ ◌-ℤ◌
alltoalls_run = refl

abbrev longer_moves : List Move
longer_moves =
    call 3
    ∷ call 3
    ∷ call 3
    ∷ call 3
    ∷ arrival 3
    ∷ arrival 0
    ∷ call 1
    ∷ arrival 2
    ∷ arrival 1
    ∷ call 3
    ∷ call 3
    ∷ call 1
    ∷ call 1
    ∷ call 1
    ∷ arrival 1
    ∷ arrival 2
    ∷ arrival 0
    ∷ arrival 0
    ∷ call 1
    ∷ call 1
    ∷ call 1
    ∷ call 1
    ∷ call 1
    ∷ call 1
    ∷ []

abbrev alltoalls_end : Flight ℕ
alltoalls_end = flight_of (fly (λ x y. x + y) false longer_moves (calm alltoalls_start))

alltoalls_flies : fly (λ x y. x + y) false longer_moves (calm alltoalls_start) ≡ some alltoalls_end
unfolding fly advance begin deliver pick flies completes outstanding exec alltoalls alltoalls_puts
    elements_from then_barrier barrier sync sync_linear ack_from clear_psync peers peers_from
    next_peer circular_iter_next ◌+ℤ◌ ◌*ℤ◌ ◌-ℤ◌
alltoalls_flies = refl

alltoalls_lem_example : alltoalls_end.machine.store.mem 3 target 2 ≡ 13
unfolding fly advance begin deliver pick flies completes outstanding exec alltoalls alltoalls_puts
    elements_from then_barrier barrier sync sync_linear ack_from clear_psync peers peers_from
    next_peer circular_iter_next ◌+ℤ◌ ◌*ℤ◌ ◌-ℤ◌
alltoalls_lem_example =
    alltoalls_lem (λ x y. x + y) false linear 4 1 4 2 1 2 2 2 1 1 2 0
      (record {
        radix = omega arith;
        positive = omega arith;
        two = omega arith;
        inside = omega arith;
      })
      (λ e. cc) (omega arith) alltoalls_program (λ p. refl)
      (record { prog = λ p. refl; zeros = λ p m. refl })
      (fly-Flights (λ x y. x + y) false longer_moves (calm alltoalls_start) alltoalls_end ready
        alltoalls_flies)
      1 refl refl 0 1 1 0 (omega arith) (omega arith) (omega arith) (omega arith)

alltoall_ran :
    Runs (λ x y. x + y) alltoall_start (machine_of (schedule (λ x y. x + y) order alltoall_start))
alltoall_ran =
    schedule-Runs (λ x y. x + y) order alltoall_start
      (machine_of (schedule (λ x y. x + y) order alltoall_start)) here alltoall_run

alltoall-ends_example :
    ((p : ℕ)
      → in_set 1 2 2 p ≡ true
      → (machine_of (schedule (λ x y. x + y) order alltoall_start)).prog p ≢ []
      → (q : ℕ) × (m'' : Machine ℕ) × (step
            (λ x y. x + y)
            q
            (machine_of (schedule (λ x y. x + y) order alltoall_start))
          ≡ some m''))
    × ((p : ℕ) → taken p alltoall_ran ≤ length (alltoall_start.prog p))
unfolding alltoall then_barrier barrier sync
alltoall-ends_example =
    alltoall-ends (λ x y. x + y) linear 4 1 4 2 1 2 2 2 0
      (record {
        radix = omega arith;
        positive = omega arith;
        two = omega arith;
        inside = omega arith;
      })
      (λ e. cc) (omega arith) alltoall_program (λ p. refl)
      (record { prog = λ p. refl; zeros = λ p m. refl }) alltoall_ran

alltoalls_ran :
    Runs
      (λ x y. x + y)
      alltoalls_start
      (machine_of (schedule (λ x y. x + y) longer_order alltoalls_start))
alltoalls_ran =
    schedule-Runs (λ x y. x + y) longer_order alltoalls_start
      (machine_of (schedule (λ x y. x + y) longer_order alltoalls_start)) here alltoalls_run

alltoalls-ends_example :
    ((p : ℕ)
      → in_set 1 2 2 p ≡ true
      → (machine_of (schedule (λ x y. x + y) longer_order alltoalls_start)).prog p ≢ []
      → (q : ℕ) × (m'' : Machine ℕ) × (step
            (λ x y. x + y)
            q
            (machine_of (schedule (λ x y. x + y) longer_order alltoalls_start))
          ≡ some m''))
    × ((p : ℕ) → taken p alltoalls_ran ≤ length (alltoalls_start.prog p))
unfolding alltoalls then_barrier barrier sync
alltoalls-ends_example =
    alltoalls-ends (λ x y. x + y) linear 4 1 4 2 1 2 2 2 1 1 2 0
      (record {
        radix = omega arith;
        positive = omega arith;
        two = omega arith;
        inside = omega arith;
      })
      (λ e. cc) (omega arith) alltoalls_program (λ p. refl)
      (record { prog = λ p. refl; zeros = λ p m. refl }) alltoalls_ran
