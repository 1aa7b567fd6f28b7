-- ===== src/Team.antt =====
-- Teams, src/shmem_team.h and src/shmem_team.c: the data, and the state that one PE keeps of them.
-- A team is named by its slot in `shmem_internal_team_pool`, `SHMEM_TEAM_INVALID` by `none`: the pool
-- is the store that the C pointers share. The pSync arrays are named by their offsets, in `long`s,
-- into `shmem_internal_psync_pool`.
pub mod Pool
pub mod Stride
pub mod Psync
pub mod Init
pub mod Translate
pub mod Reduce
pub mod Split
pub mod Split2d
pub mod Destroy
mod Tests
use sandia_shmem.Base.{ℕ, ◌+◌, ◌*◌, Bool, Option, none, some, List, [], ◌∷◌, get_elem?}
use sandia_shmem.Base.Int.{ℤ, pos_part}

-- `shmem_team_config_t` of mpp/shmem-def.h.in
pub record Config : Type 0 where
  pub num_contexts : ℤ

-- What this file reads of a `struct shmem_transport_ctx_t`.
pub record Ctx : Type 0 where
  pub id : ℕ
  pub is_private : Bool  -- options & SHMEM_CTX_PRIVATE

-- `shmem_internal_team_t`; `contexts_len` is the length of `contexts`.
pub record Team : Type 0 where
  pub my_pe : ℤ
  pub start : ℤ
  pub stride : ℤ
  pub size : ℤ
  pub psync_idx : ℤ
  pub psync_avail : List ℕ
  pub config : Config
  pub config_mask : ℤ
  pub contexts : List (Option Ctx)

-- `shmem_internal_team_op_t`
pub data TeamOp : Type 0 where
  sync bcast reduce collect alltoall : TeamOp

-- What a PE asks of the communication layer, in order. A collective names its active set and pSync.
pub data Event : Type 0 where
  quiet : Event
  sync_set : ℤ → ℤ → ℤ → ℕ → Event
  barrier : ℤ → ℤ → ℤ → ℕ → Event
  reduce_band : ℤ → ℤ → ℤ → ℕ → Event
  reduce_max : ℤ → ℤ → ℤ → ℕ → Event
  ctx_quiet : Ctx → Event
  ctx_destroy : Ctx → Event

abbrev pub n_psyncs_per_team : ℕ
n_psyncs_per_team = 2

abbrev pub n_psync_bytes : ℕ
n_psync_bytes = 8

abbrev pub world_index : ℕ
world_index = 0

abbrev pub shared_index : ℕ
shared_index = 1

abbrev pub teams_min : ℕ
teams_min = 2

-- The globals of one PE. `sync_size` is SHMEM_SYNC_SIZE, which configure chooses.
pub record Pe : Type 0 where
  pub rank : ℕ  -- shmem_internal_my_pe
  pub num_pes : ℕ
  pub teams_max : ℕ  -- shmem_internal_params.TEAMS_MAX
  pub sync_size : ℕ
  pub team_pool : List (Option Team)
  pub psync_pool_avail : List ℕ
  pub trace : List Event

abbrev pub join {ℓ} : {A : Type ℓ} → Option (Option A) → Option A
join none = none
join (some t) = t

-- The team in a slot of the pool.
abbrev pub team_at : Pe → ℕ → Option Team
team_at pe slot = join (get_elem? pe.team_pool slot)

abbrev pub psync_chunk_size : Pe → ℕ
psync_chunk_size pe = n_psyncs_per_team * pe.sync_size

-- The offset of `shmem_internal_psync_barrier_pool`.
abbrev pub barrier_pool : Pe → ℕ
barrier_pool pe = psync_chunk_size pe * pe.teams_max

-- The length of `shmem_internal_psync_pool`, in `long`s.
abbrev pub psync_len : Pe → ℕ
psync_len pe = pe.teams_max * (psync_chunk_size pe + pe.sync_size)

-- `psync_idx` as the index that it is used for. It is never negative in the pool.
abbrev pub slot_of : Team → ℕ
slot_of t = pos_part t.psync_idx
