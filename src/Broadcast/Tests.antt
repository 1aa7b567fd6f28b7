-- ===== src/Broadcast/Tests.antt =====
-- Runs of the broadcast of src/collectives.c.
use sandia_shmem.Base.{
  ◌≤◌, ℕ, ◌+◌, ◌≡◌, refl, [], ◌∷◌, List, Option, none, some, false, arith, if◌then◌else◌, ◌*◌, true,
  ◌≢◌, ◌≤◌, length,
}
use sandia_shmem.Comm.{
  put, put_data, put_wait, fence, source, target, Machine, step, exec, here, schedule,
  schedule-Runs, Runs, taken,
}
use sandia_shmem.Comm.Flight.{
  Flight, ready, Move, call, arrival, fly, fly-Flights, advance, begin, deliver, pick, flies,
  completes, outstanding,
}
use sandia_shmem.Sync.Linear.{in_set}
use sandia_shmem.Broadcast.{others_from, bcast_root, bcast_other, bcast_linear}
use sandia_shmem.Broadcast.Live.{bcast_linear-ends}
use sandia_shmem.Broadcast.Delivered.{bcast_linear_lem}

-- PE 3 of 1, 3 and 5 sends to the others.
root_of_three :
    bcast_linear source 4 1 1 2 3 0 3 false
    ≡ put_data target 0 source 0 4 1
      ∷ put_data target 0 source 0 4 5
      ∷ put_wait
      ∷ fence
      ∷ put 0 1 1
      ∷ put 0 1 5
      ∷ []
unfolding bcast_linear bcast_root others_from
root_of_three = refl

-- PE `p` has 10 * p + i at place i of its source.
abbrev start : Machine ℕ
start = record {
  prog = λ p. if in_set 1 2 3 p then bcast_linear source 4 1 1 2 3 0 p false else [];
  store = record { psync = λ p i. 0; mem = λ p b i. 10 * p + i };
}

-- The root is through, and PE 5 has waited.
abbrev order : List ℕ
order = 3 ∷ 3 ∷ 3 ∷ 3 ∷ 3 ∷ 3 ∷ 5 ∷ []

abbrev machine_of : Option (Machine ℕ) → Machine ℕ
machine_of none = start
machine_of (some m) = m

bcast_run :
    schedule (λ x y. x + y) order start ≡ some (machine_of (schedule (λ x y. x + y) order start))
unfolding schedule step exec bcast_linear bcast_root bcast_other others_from
bcast_run = refl

-- The data for PE 5 arrives last, before the fence of the root ends.
abbrev moves : List Move
moves = call 3 ∷ call 3 ∷ call 3 ∷ arrival 1 ∷ arrival 0 ∷ call 3 ∷ call 3 ∷ call 3 ∷ call 5 ∷ []

-- Nothing in flight.
abbrev calm : Flight ℕ
calm = record { machine = start; pending = [] }

abbrev flight_of : Option (Flight ℕ) → Flight ℕ
flight_of none = calm
flight_of (some f) = f

abbrev bcast_end : Flight ℕ
bcast_end = flight_of (fly (λ x y. x + y) true moves calm)

bcast_flies : fly (λ x y. x + y) true moves calm ≡ some bcast_end
unfolding fly advance begin deliver pick flies completes outstanding exec bcast_linear bcast_root
    bcast_other others_from
bcast_flies = refl

-- While data is in flight, the fence of the root does not end.
fence_waits :
    fly (λ x y. x + y) true (call 3 ∷ call 3 ∷ call 3 ∷ arrival 1 ∷ call 3 ∷ []) calm ≡ none
unfolding fly advance begin deliver pick flies completes outstanding exec bcast_linear bcast_root
    bcast_other others_from
fence_waits = refl

bcast_linear_lem_example : bcast_end.machine.store.mem 5 target 2 ≡ 32
unfolding fly advance begin deliver pick flies completes outstanding exec bcast_linear bcast_root
    bcast_other others_from
bcast_linear_lem_example =
    bcast_linear_lem (λ x y. x + y) source 1 2 3 1 4 0 false (omega arith) (omega arith)
      (omega arith) (record { prog = λ p. refl; zeros = λ p m. refl })
      (fly-Flights (λ x y. x + y) true moves calm bcast_end ready bcast_flies) 5 refl
      (λ e. omega (arith, e)) (λ e. cc) 2 (omega arith)

bcast_ran : Runs (λ x y. x + y) start (machine_of (schedule (λ x y. x + y) order start))
bcast_ran =
    schedule-Runs (λ x y. x + y) order start (machine_of (schedule (λ x y. x + y) order start)) here
      bcast_run

bcast_linear-ends_example :
    ((p : ℕ)
      → in_set 1 2 3 p ≡ true
      → p ≢ 3
      → (machine_of (schedule (λ x y. x + y) order start)).prog p ≡ start.prog p
      → (q : ℕ) × (m'' : Machine ℕ) × (step
            (λ x y. x + y)
            q
            (machine_of (schedule (λ x y. x + y) order start))
          ≡ some m''))
    × ((p : ℕ) → taken p bcast_ran ≤ length (start.prog p))
bcast_linear-ends_example =
    bcast_linear-ends (λ x y. x + y) source 1 2 3 1 4 0 false (omega arith) (omega arith)
      (omega arith) (omega arith) (record { prog = λ p. refl; zeros = λ p m. refl }) bcast_ran
