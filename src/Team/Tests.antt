-- ===== src/Team/Tests.antt =====
-- Runs of the functions of src/shmem_team.c on a job of four PEs.
use sandia_shmem.Base.{
  set, ℕ, ◌+◌, ◌*◌, ◌<◌, ◌≤◌, ◌≡◌, ◌≢◌, refl, true, false, List, [], ◌∷◌, ◌++◌, none, some, arith,
  ◌==◌, if◌then◌else◌, ◌↔◌,
}
use sandia_shmem.Base.Int.{pos, ◌+ℤ◌, ◌*ℤ◌, ◌-ℤ◌, ◌/ℤ◌, ◌%ℤ◌}
use sandia_shmem.Base.Byte.{and_not_bit, or_bit}
use sandia_shmem.BitSet.{bit_fetch, bit_set, bit_clear, bit_1st_nonzero}
use sandia_shmem.ActiveSet.{minus_one, team_pe, pe_in_active_set}
use sandia_shmem.Team.{Team, Ctx, Event, slot_of, Pe, TeamOp, sync, team_at}
use sandia_shmem.Team.Pool.{IsValid, restore-IsValid}
use sandia_shmem.Team.Stride.{Triple, check_for_linear_stride, unset}
use sandia_shmem.Team.Stride.Laws.{check_for_linear_stride_gap}
use sandia_shmem.Team.Init.{
  Setup, ready, initial_avail, fresh_team, initial_pe, raised_max, team_init, shared_triple,
}
use sandia_shmem.Team.Init.Laws.{team_init_lem}
use sandia_shmem.Team.Translate.{translate_pe}
use sandia_shmem.Team.Translate.Laws.{Spans, translate_pe_iff, translate_pe_roundtrip}
use sandia_shmem.Team.Psync.{choose_psync, choose_collective}
use sandia_shmem.Team.Reduce.{reduce_band, fold_set, band}
use sandia_shmem.Team.Psync.Laws.{choose_psync_collision}
use sandia_shmem.Team.Destroy.{team_destroy, team_fini, done}
use sandia_shmem.Team.Destroy.Laws.{Freed, Dropped, team_destroy_lem, team_fini_lem}
use sandia_shmem.Team.Split.{Split, split_strided, accepts}
use sandia_shmem.Team.Split.Agree.{IsJob, Shape}
use sandia_shmem.Team.Split.Members.{split_strided-agree}

abbrev setup : ℕ → Setup
setup q = record {
  rank = q;
  num_pes = 4;
  sync_size = 8;
  teams_max_param = pos 10;
  only_self = true;
  shared = λ _. false;
  node_size = 1;
  psync_pool_ok = true;
  avail_ok = true;
  ret_val_ok = true;
}

abbrev alone : ℕ → Triple
alone q = record { start = pos q; stride = pos 1; size = pos 1 }

-- The state of PE `q` after `shmem_internal_team_init`.
abbrev job : ℕ → Pe
job q = initial_pe (setup q) (alone q) 10

starts : (q : ℕ) → team_init (setup q) ≡ ready (job q)
unfolding team_init shared_triple raised_max
starts q = refl

team_init_lem_example :
    IsValid (job 2)
    × (2 ≤ (job 2).teams_max)
    × ((t : Triple) × (shared_triple (setup 2) ≡ some t)
        × ((j : ℕ)
            → team_at (job 2) j ≡ (
                if 1 == j
                then some (fresh_team 2 t.start t.stride t.size 1)
                else if 0 == j
                then some (fresh_team 2 (pos 0) (pos 1) (pos 4) 0)
                else none)))
team_init_lem_example = team_init_lem (setup 2) (starts 2)

job-IsJob : IsJob job 4 10
unfolding initial_pe
job-IsJob = record {
  valid = λ q. (team_init_lem (setup q) (starts q)).0;
  rank = λ q. refl;
  num_pes = λ q. refl;
  teams_max = λ q. refl;
}

abbrev world : ℕ → Team
world q = fresh_team q (pos 0) (pos 1) (pos 4) 0

world_held : (q : ℕ) → team_at (job q) 0 ≡ some (world q)
unfolding initial_pe
world_held q = refl

-- The PEs 1 and 3.
abbrev odd : Split
odd = record {
  pe_start = pos 1;
  pe_stride = pos 2;
  pe_size = pos 2;
  config = none;
  config_mask = pos 0;
}

odd-Shape : (q : ℕ) → Shape (world q) odd 1 2 2
unfolding team_pe ◌+ℤ◌ ◌*ℤ◌
odd-Shape q = record {
  start = refl;
  stride = refl;
  size = refl;
  positive = omega arith;
  nonempty = omega arith;
}

odd_accepted : (q : ℕ) → accepts (job q).num_pes (world q) odd ≡ true
unfolding accepts initial_pe team_pe ◌+ℤ◌ ◌*ℤ◌ ◌-ℤ◌
odd_accepted q = refl

split_strided-agree_example :
    (split_strided job 1 (some 0) odd).new ≡ (split_strided job 3 (some 0) odd).new
split_strided-agree_example =
    split_strided-agree job-IsJob 0 {k = 0} {k' = 1} (odd-Shape 1) (odd-Shape 3) (omega arith)
      (omega arith) (world_held 1) (world_held 3) (odd_accepted 1) (odd_accepted 3)

split_runs : (split_strided job 3 (some 0) odd).new ≡ some 2
unfolding and_not_bit or_bit split_strided initial_pe initial_avail bit_set bit_clear bit_fetch
    bit_1st_nonzero team_pe pe_in_active_set choose_psync choose_collective reduce_band fold_set
    band ◌+ℤ◌ ◌*ℤ◌ ◌-ℤ◌ ◌/ℤ◌ ◌%ℤ◌
split_runs = refl

abbrev seven : Ctx
seven = record { id = 7; is_private = false }

abbrev four : Ctx
four = record { id = 4; is_private = true }

-- The world team with contexts 7 and 4 left, and the pool that holds it.
abbrev busy_world : Team
busy_world = record (world 2) { contexts = some seven ∷ none ∷ some four ∷ [] }

abbrev busy : Pe
busy = record (job 2) { team_pool = set (job 2).team_pool (slot_of busy_world) (some busy_world) }

busy-IsValid : IsValid busy
busy-IsValid = restore-IsValid (job-IsJob.valid 2) 0 (world 2) busy_world _ (world_held 2) refl

busy_held : team_at busy 0 ≡ some busy_world
unfolding initial_pe
busy_held = refl

team_destroy_lem_example :
    (pe' : Pe) × (team_destroy busy (some 0) ≡ done pe')
    × Freed busy 0 pe'
    × ((events : List Event) × (pe'.trace ≡ busy.trace ++ events)
        × Dropped (some seven ∷ none ∷ some four ∷ []) events)
team_destroy_lem_example = team_destroy_lem busy-IsValid 0 busy_world busy_held

team_fini_lem_example :
    (pe' : Pe) × (team_fini (job 2) ≡ done pe')
    × IsValid pe'
    × ((i : ℕ) → team_at pe' i ≡ none)
    × ((i : ℕ) → i < pe'.teams_max → bit_fetch pe'.psync_pool_avail i ≡ 1)
team_fini_lem_example = team_fini_lem (job-IsJob.valid 2)

-- A team <s, d, z> in slot `idx`, with these flags.
abbrev team_with : ℕ → ℕ → ℕ → ℕ → List ℕ → Team
team_with s d z idx avail = record (fresh_team 0 (pos s) (pos d) (pos z) idx) {
  psync_avail = avail;
}

abbrev evens : Team
evens = team_with 0 2 4 2 (1 ∷ 1 ∷ [])

abbrev fours : Team
fours = team_with 0 4 2 3 (1 ∷ 1 ∷ [])

evens-Spans : Spans evens 0 2 4
evens-Spans = record { start = refl; stride = refl; size = refl }

fours-Spans : Spans fours 0 4 2
fours-Spans = record { start = refl; stride = refl; size = refl }

translate_runs : translate_pe (some evens) (pos 2) (some fours) ≡ pos 1
unfolding translate_pe pe_in_active_set ◌+ℤ◌ ◌*ℤ◌ ◌-ℤ◌ ◌/ℤ◌ ◌%ℤ◌
translate_runs = refl

-- The number 4, one beyond the last PE of `evens`, is the PE 8, and that is no PE of `fours`.
translate_pe_iff_example :
    (translate_pe (some evens) (pos 4) (some fours) ≡ pos 2) ↔ ((0 + 4 * 2 ≡ 0 + 4 * 2) × (2 < 2))
translate_pe_iff_example =
    translate_pe_iff evens fours 4 2 evens-Spans fours-Spans (omega arith) (omega arith)

translate_pe_roundtrip_example : translate_pe (some fours) (pos 1) (some evens) ≡ pos 2
translate_pe_roundtrip_example =
    translate_pe_roundtrip evens fours 2 1 evens-Spans fours-Spans (omega arith) (omega arith)
      (omega arith) translate_runs

reduce_not_sync : TeamOp.reduce ≢ sync
reduce_not_sync e = cc

choose_psync_collision_example :
    (choose_psync (job 0) (record evens { psync_avail = 0 ∷ 1 ∷ [] }) TeamOp.reduce).psync
    ≡ (choose_psync (job 0) fours TeamOp.reduce).psync
choose_psync_collision_example =
    choose_psync_collision (job 0) (record evens { psync_avail = 0 ∷ 1 ∷ [] }) fours TeamOp.reduce
      reduce_not_sync refl refl refl

-- The PEs 0, 2 and 6.
check_for_linear_stride_gap_example :
    (check_for_linear_stride (pos 0) unset
      ≡ some (record { start = pos 0; stride = minus_one; size = pos 1 }))
    × (check_for_linear_stride (pos 2) (record { start = pos 0; stride = minus_one; size = pos 1 })
        ≡ some (record { start = pos 0; stride = pos 2; size = pos 2 }))
    × (check_for_linear_stride (pos 6) (record { start = pos 0; stride = pos 2; size = pos 2 })
        ≡ some (record { start = pos 0; stride = pos 2; size = pos 3 }))
    × (pe_in_active_set (pos 6) (pos 0) (pos 2) (pos 3) ≡ minus_one)
check_for_linear_stride_gap_example =
    check_for_linear_stride_gap 0 2 6 3 (omega arith) refl (omega arith)
