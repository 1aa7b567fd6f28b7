-- ===== src/Team/Destroy.antt =====
-- `shmem_internal_team_destroy` and `shmem_internal_team_fini` of src/shmem_team.c.
pub mod Laws
use sandia_shmem.Base.{
  ℕ, zero, suc, ◌+◌, List, [], ◌∷◌, ◌++◌, Option, none, some, set, if◌then◌else◌, ◌==◌,
}
use sandia_shmem.BitSet.{bit_set, bit_fetch}
use sandia_shmem.Team.{Team, Pe, Ctx, Event, team_at, slot_of}

-- `invalid` is the return value -1, `abort` the error that ends the program.
pub data Destroyed : Type 0 where
  done : Pe → Destroyed
  invalid : Destroyed
  abort : Destroyed

-- The loop over the contexts that the program left.
unfoldable pub drop_contexts : List (Option Ctx) → List Event
drop_contexts [] = []
drop_contexts (none ∷ cs) = drop_contexts cs
drop_contexts (some c ∷ cs) = Event.ctx_quiet c ∷ Event.ctx_destroy c ∷ drop_contexts cs

unfoldable pub destroy_team : Pe → Team → Destroyed
unfolding drop_contexts
destroy_team pe team =
    if bit_fetch pe.psync_pool_avail (slot_of team) == 0
    then done (record pe {
      psync_pool_avail = bit_set pe.psync_pool_avail (slot_of team);
      team_pool = set pe.team_pool (slot_of team) none;
      trace = pe.trace ++ drop_contexts team.contexts;
    })
    else abort

unfoldable pub team_destroy : Pe → Option ℕ → Destroyed
unfolding destroy_team
team_destroy pe none = invalid
team_destroy pe (some slot) = elim (team_at pe slot) [
  | none ↦ invalid
  | some team ↦ destroy_team pe team
]

-- The loop of `team_fini` from slot `i`, with `left` to go; an abort ends it.
unfoldable pub destroy_from : ℕ → ℕ → Pe → Destroyed
unfolding team_destroy
destroy_from zero i pe = done pe
destroy_from (suc left) i pe = elim (team_at pe i) [
  | none ↦ destroy_from left (i + 1) pe
  | some team ↦ elim (destroy_team pe team) [
    | done pe' ↦ destroy_from left (i + 1) pe'
    | invalid ↦ invalid
    | abort ↦ abort
  ]
]

unfoldable pub team_fini : Pe → Destroyed
unfolding destroy_from
team_fini pe = destroy_from pe.teams_max 0 pe
