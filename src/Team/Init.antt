-- ===== src/Team/Init.antt =====
-- `shmem_internal_team_init` of src/shmem_team.c.
pub mod Laws
use sandia_shmem.Base.{
  ℕ, zero, suc, ◌+◌, ◌*◌, Bool, ◌&&◌, not, List, [], Option, none, some, replicate, set,
  if◌then◌else◌,
}
use sandia_shmem.Base.Int.{ℤ, pos, negsuc, ltb_ℤ, ◌==ℤ◌, pos_part}
use sandia_shmem.BitSet.{bit_set, bit_clear}
use sandia_shmem.Team.{
  Team, Pe, Config, n_psyncs_per_team, n_psync_bytes, world_index, shared_index, teams_min,
}
use sandia_shmem.Team.Stride.{Triple, unset, scan_shared}

-- What the call reads and does not compute: the job, the parameters, which PEs `shmem_internal_ptr`
-- reaches through shared memory, the node's size, and which allocations succeed.
pub record Setup : Type 0 where
  pub rank : ℕ
  pub num_pes : ℕ
  pub sync_size : ℕ
  pub teams_max_param : ℤ  -- shmem_internal_params.TEAMS_MAX
  pub only_self : Bool  -- shmem_internal_params.TEAM_SHARED_ONLY_SELF
  pub shared : ℕ → Bool
  pub node_size : ℕ
  pub psync_pool_ok : Bool
  pub avail_ok : Bool
  pub ret_val_ok : Bool

-- `fail` is the return value -1, `abort` a failed `shmem_internal_assertp`.
pub data InitResult : Type 0 where
  ready : Pe → InitResult
  fail : InitResult
  abort : InitResult

abbrev pub no_config : Config
no_config = record { num_contexts = pos 0 }

abbrev pub fresh_team : ℕ → ℤ → ℤ → ℤ → ℕ → Team
fresh_team rank start stride size idx = record {
  my_pe = pos rank;
  start = start;
  stride = stride;
  size = size;
  psync_idx = pos idx;
  psync_avail = replicate n_psyncs_per_team 1;
  config = no_config;
  config_mask = pos 0;
  contexts = [];
}

abbrev only_me : ℕ → Triple
only_me rank = record { start = pos rank; stride = pos 1; size = pos 1 }

-- The assertion on the size, and the stride of a team of one.
abbrev checked : ℕ → Triple → Option Triple
checked node_size t =
    if ltb_ℤ (pos 0) t.size && not (ltb_ℤ (pos node_size) t.size)
    then some (record t { stride = if t.stride ==ℤ negsuc 0 then pos 1 else t.stride })
    else none

-- The start, stride and size of SHMEM_TEAM_SHARED; `none` is the failed assertion on the size.
unfoldable pub shared_triple : Setup → Option Triple
unfolding scan_shared
shared_triple s =
    if s.only_self
    then some (only_me s.rank)
    else checked s.node_size
        (elim (scan_shared s.shared s.num_pes 0 unset) [ none ↦ only_me s.rank | some t ↦ t ])

-- The loop that sets the bits of the slots `i`, `i + 1`, …, `left` of them.
unfoldable pub set_slots : List ℕ → ℕ → ℕ → List ℕ
set_slots avail zero i = avail
set_slots avail (suc left) i = set_slots (bit_set avail i) left (i + 1)

-- The availability bits: a 1 for each slot below `teams_max`, but for the two teams at hand.
unfoldable pub initial_avail : ℕ → List ℕ
unfolding set_slots
initial_avail teams_max =
    bit_clear (bit_clear (set_slots (replicate n_psync_bytes 0) teams_max 0) world_index)
      shared_index

unfoldable pub initial_pe : Setup → Triple → ℕ → Pe
unfolding initial_avail
initial_pe s t teams_max =
    let world = fresh_team s.rank (pos 0) (pos 1) (pos s.num_pes) world_index in
    let shared = fresh_team s.rank t.start t.stride t.size shared_index in
    record {
      rank = s.rank;
      num_pes = s.num_pes;
      teams_max = teams_max;
      sync_size = s.sync_size;
      team_pool =
          set (set (replicate teams_max none) world_index (some world)) shared_index (some shared);
      psync_pool_avail = initial_avail teams_max;
      trace = [];
    }

-- TEAMS_MAX, raised to the minimum.
unfoldable pub raised_max : Setup → ℕ
raised_max s =
    if ltb_ℤ s.teams_max_param (pos teams_min) then teams_min else pos_part s.teams_max_param

unfoldable pub team_init : Setup → InitResult
team_init s = elim (shared_triple s) [
  | none ↦ abort
  | some t ↦
      if ltb_ℤ (pos (n_psync_bytes * 8)) s.teams_max_param
      then fail
      else if s.psync_pool_ok && s.avail_ok && s.ret_val_ok
      then ready (initial_pe s t (raised_max s))
      else fail
]
