-- ===== src/Team/Psync/Laws.antt =====
-- The pSyncs that src/shmem_team.c chooses: which of the team's data a choice leaves alone, where in
-- the pool the chosen array lies, and which choices meet.
use sandia_shmem.Base.{ℕ, ◌+◌, ◌*◌, ◌<◌, ◌≤◌, ◌≡◌, ◌≢◌, refl, List, [], ◌∷◌, arith, ◌∙◌}
use native.Mathlib.Nat.{mul-le-mul_right}
use sandia_shmem.Team.{
  Team, quiet, sync_set, Pe, TeamOp, sync, psync_chunk_size, psync_len, slot_of,
}
use sandia_shmem.Team.Psync.{choose_collective, choose_psync, release_psyncs, sync_psync}

-- The same team but for the flags of its pSyncs.
pub record SameTeam (t t' : Team) : Type 0 where
  pub my_pe : t'.my_pe ≡ t.my_pe
  pub start : t'.start ≡ t.start
  pub stride : t'.stride ≡ t.stride
  pub size : t'.size ≡ t.size
  pub psync_idx : t'.psync_idx ≡ t.psync_idx
  pub config : t'.config ≡ t.config
  pub config_mask : t'.config_mask ≡ t.config_mask
  pub contexts : t'.contexts ≡ t.contexts

pub SameTeam-trans : {t u w : Team} → SameTeam t u → SameTeam u w → SameTeam t w
SameTeam-trans f g = record {
  my_pe = g.my_pe ∙ f.my_pe;
  start = g.start ∙ f.start;
  stride = g.stride ∙ f.stride;
  size = g.size ∙ f.size;
  psync_idx = g.psync_idx ∙ f.psync_idx;
  config = g.config ∙ f.config;
  config_mask = g.config_mask ∙ f.config_mask;
  contexts = g.contexts ∙ f.contexts;
}

pub choose_psync-SameTeam :
    (pe : Pe) (t : Team) (op : TeamOp) → SameTeam t (choose_psync pe t op).team
unfolding choose_psync choose_collective
choose_psync-SameTeam pe t sync = ground arith
choose_psync-SameTeam pe t _ = ground arith

pub release_psyncs-SameTeam : (t : Team) (op : TeamOp) → SameTeam t (release_psyncs t op)
unfolding release_psyncs
release_psyncs-SameTeam t sync = ground arith
release_psyncs-SameTeam t _ = ground arith

-- Two arrays past the start of slot `s` there is still room for one.
pool_room : (s i m k : ℕ) → s < m → i ≤ 1 → (s + i) * (2 * k) + k ≤ m * (2 * k + k)
pool_room s i m k h hi = omega (arith, mul-le-mul_right k h, mul-le-mul_right k hi)

module _ (pe : Pe) (t : Team) where
  pub choose_one :
      (r : List ℕ)
      → t.psync_avail ≡ 1 ∷ r
      → choose_collective pe t ≡ record {
        psync = slot_of t * psync_chunk_size pe;
        team = record t { psync_avail = 0 ∷ r };
        events = [];
      }
  unfolding choose_collective
  choose_one r e = ground arith

  pub choose_two :
      (r : List ℕ)
      → t.psync_avail ≡ 0 ∷ 1 ∷ r
      → choose_collective pe t ≡ record {
        psync = (slot_of t + 1) * psync_chunk_size pe;
        team = record t { psync_avail = 0 ∷ 0 ∷ r };
        events = [];
      }
  unfolding choose_collective
  choose_two r e = ground arith

  choose_wait :
      t.psync_avail ≡ 0 ∷ 0 ∷ []
      → (choose_collective pe t).events
        ≡ quiet ∷ sync_set t.start t.stride t.size (sync_psync pe t) ∷ []
  unfolding choose_collective
  choose_wait e = ground arith

  choose_collective_bounds :
      slot_of t < pe.teams_max → (choose_collective pe t).psync + pe.sync_size ≤ psync_len pe
  unfolding choose_collective
  choose_collective_bounds h = ground (
    arith,
    pool_room (slot_of t) 0 pe.teams_max pe.sync_size h,
    pool_room (slot_of t) 1 pe.teams_max pe.sync_size h,
  )

-- Two collectives in a row on a team whose pSyncs are both free use different arrays without waiting;
-- a third one, with no release between, first quiets and synchronizes the whole team.
pub choose_psync_alternates :
    (pe : Pe) (t : Team) (op : TeamOp)
    → op ≢ sync
    → 0 < pe.sync_size
    → t.psync_avail ≡ 1 ∷ 1 ∷ []
    → let first = choose_psync pe t op in
      let second = choose_psync pe first.team op in
      let third = choose_psync pe second.team op in
      (first.psync ≢ second.psync)
      × (first.events ≡ [])
      × (second.events ≡ [])
      × (third.events ≡ quiet ∷ sync_set t.start t.stride t.size (sync_psync pe t) ∷ [])
unfolding choose_psync
choose_psync_alternates pe t sync ne pos_size e = absurd (ne refl)
choose_psync_alternates pe t _ ne pos_size e = rw (choose_one pe t (1 ∷ []) e) (
    rw (choose_two pe (record t { psync_avail = 0 ∷ 1 ∷ [] }) [] refl)
      ((λ q. grind arith), refl, refl, choose_wait pe (record t { psync_avail = 0 ∷ 0 ∷ [] }) refl))

-- Every array that a team with a slot below TEAMS_MAX is given, SHMEM_SYNC_SIZE long, lies in the
-- pool.
pub choose_psync_bounds :
    (pe : Pe) (t : Team) (op : TeamOp)
    → slot_of t < pe.teams_max
    → (choose_psync pe t op).psync + pe.sync_size ≤ psync_len pe
unfolding choose_psync
choose_psync_bounds pe t sync h = grind arith
choose_psync_bounds pe t _ h = choose_collective_bounds pe t h

-- The arrays for barriers of teams in different slots do not overlap.
pub sync_psync_disjoint :
    (pe : Pe) (t u : Team)
    → slot_of t < slot_of u
    → (choose_psync pe t sync).psync + pe.sync_size ≤ (choose_psync pe u sync).psync
unfolding choose_psync
sync_psync_disjoint pe t u h = grind arith

-- The second array of a team is the first array of the team in the next slot: a collective of each
-- is given the same pSync.
pub choose_psync_collision :
    (pe : Pe) (t u : Team) (op : TeamOp)
    → op ≢ sync
    → slot_of u ≡ slot_of t + 1
    → t.psync_avail ≡ 0 ∷ 1 ∷ []
    → u.psync_avail ≡ 1 ∷ 1 ∷ []
    → (choose_psync pe t op).psync ≡ (choose_psync pe u op).psync
unfolding choose_psync
choose_psync_collision pe t u sync ne next ta ua = absurd (ne refl)
choose_psync_collision pe t u _ ne next ta ua =
    rw (choose_two pe t [] ta) (rw (choose_one pe u (1 ∷ []) ua) (rw next))

-- The second array of the team in the last slot begins where the array for barriers of the world
-- team begins.
pub choose_psync_collision_world :
    (pe : Pe) (t w : Team) (op : TeamOp)
    → op ≢ sync
    → slot_of t + 1 ≡ pe.teams_max
    → slot_of w ≡ 0
    → t.psync_avail ≡ 0 ∷ 1 ∷ []
    → (choose_psync pe t op).psync ≡ (choose_psync pe w sync).psync
unfolding choose_psync
choose_psync_collision_world pe t w sync ne last world ta = absurd (ne refl)
choose_psync_collision_world pe t w _ ne last world ta =
    rw (choose_two pe t [] ta) (rw (last, world) (omega arith))
