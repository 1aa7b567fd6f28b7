-- ===== src/Team/Psync.antt =====
-- `shmem_internal_team_choose_psync` and `shmem_internal_team_release_psyncs` of src/shmem_team.c.
pub mod Laws
use sandia_shmem.Base.{
  ℕ, zero, suc, ◌+◌, ◌*◌, List, [], ◌∷◌, get_or, set, replicate, Option, none, some, ◌==◌,
  if◌then◌else◌,
}
use sandia_shmem.Team.{
  Team, Pe, TeamOp, sync, Event, quiet, sync_set, n_psyncs_per_team, psync_chunk_size, barrier_pool,
  slot_of,
}

-- The pSync chosen, the team with its flags updated, and what the call asks of communication.
pub record Choice : Type 0 where
  pub psync : ℕ
  pub team : Team
  pub events : List Event

-- The loop over `i < N_PSYNCS_PER_TEAM`, from `i` with `left` rounds to go: the first nonzero flag.
unfoldable pub first_avail : List ℕ → ℕ → ℕ → Option ℕ
first_avail avail zero i = none
first_avail avail (suc left) i =
    let rest = first_avail avail left (i + 1) in if get_or avail i 0 == 0 then rest else some i

abbrev pub sync_psync : Pe → Team → ℕ
sync_psync pe team = barrier_pool pe + slot_of team * pe.sync_size

-- The `default` case of the switch.
unfoldable pub choose_collective : Pe → Team → Choice
unfolding first_avail
choose_collective pe team = elim (first_avail team.psync_avail n_psyncs_per_team 0) [
  | some i ↦ record {
    psync = (slot_of team + i) * psync_chunk_size pe;
    team = record team { psync_avail = set team.psync_avail i 0 };
    events = [];
  }
  | none ↦ record {
    psync = slot_of team * pe.sync_size;
    team = record team { psync_avail = set (replicate n_psyncs_per_team 1) 0 0 };
    events = quiet ∷ sync_set team.start team.stride team.size (sync_psync pe team) ∷ [];
  }
]

unfoldable pub choose_psync : Pe → Team → TeamOp → Choice
choose_psync pe team sync = record { psync = sync_psync pe team; team = team; events = [] }
choose_psync pe team _ = choose_collective pe team

unfoldable pub release_psyncs : Team → TeamOp → Team
release_psyncs team sync = record team { psync_avail = replicate n_psyncs_per_team 1 }
release_psyncs team _ = team
