-- ===== src/Team/Split.antt =====
-- `shmem_internal_team_split_strided` of src/shmem_team.c, on all PEs of a job together: `job q` is the
-- state of PE `q` at its call. The two reductions take what each PE has put there before them, so the
-- call is three steps of each PE (check and create, barrier, agree) around them.
pub mod Pick
pub mod Create
pub mod Agree
pub mod Members
use sandia_shmem.Base.{
  ℕ, Bool, ◌||◌, ◌&&◌, not, List, [], ◌∷◌, ◌++◌, Option, none, some, replicate, set, if◌then◌else◌,
  ◌==◌,
}
use sandia_shmem.Base.Int.{ℤ, pos, ◌+ℤ◌, ◌-ℤ◌, ◌*ℤ◌, ltb_ℤ, ◌==ℤ◌, pos_part}
use sandia_shmem.BitSet.{bit_clear, bit_1st_nonzero, not_found}
use sandia_shmem.ActiveSet.{minus_one, pe_in_active_set, team_pe}
use sandia_shmem.Team.{Team, Pe, Config, Event, TeamOp, n_psyncs_per_team, team_at, slot_of}
use sandia_shmem.Team.Init.{no_config}
use sandia_shmem.Team.Psync.{choose_psync, release_psyncs}
use sandia_shmem.Team.Reduce.{reduce_band, reduce_max}

-- The arguments but for the parent; `config` is `none` for a null pointer.
pub record Split : Type 0 where
  pub pe_start : ℤ
  pub pe_stride : ℤ
  pub pe_size : ℤ
  pub config : Option Config
  pub config_mask : ℤ

abbrev pub global_start : Team → Split → ℤ
global_start parent a = team_pe parent.start parent.stride a.pe_start

abbrev pub global_end : Team → Split → ℤ
global_end parent a = global_start parent a +ℤ a.pe_stride *ℤ (a.pe_size -ℤ pos 1)

-- The two checks that return -1; `geb a b` of the source is `not (ltb a b)`.
unfoldable pub accepts : ℕ → Team → Split → Bool
accepts num_pes parent a =
    not (
      ltb_ℤ a.pe_start (pos 0)
      || not (ltb_ℤ a.pe_start parent.size)
      || not (ltb_ℤ (pos 0) a.pe_size)
      || ltb_ℤ parent.size a.pe_size
      || ltb_ℤ a.pe_stride (pos 1))
    && not (
        not (ltb_ℤ (global_start parent a) (pos num_pes))
        || not (ltb_ℤ (global_end parent a) (pos num_pes)))

-- The new team before a slot is chosen, for the PE with index `my_pe`.
abbrev pub child : Team → Split → ℤ → Team
child parent a my_pe = record {
  my_pe = my_pe;
  start = global_start parent a;
  stride = a.pe_stride;
  size = a.pe_size;
  psync_idx = minus_one;
  psync_avail = replicate n_psyncs_per_team 0;
  config = elim a.config [ none ↦ no_config | some c ↦ c ];
  config_mask = elim a.config [ none ↦ pos 0 | some c ↦ a.config_mask ];
  contexts = [];
}

-- The state of a PE between two reductions: `new` is the slot of `*new_team`.
pub record Created : Type 0 where
  pub pe : Pe
  pub new : Option ℕ
  pub ret_val : ℕ  -- *team_ret_val

-- A member of the new team picks the first slot that the reduced bits offer. A slot at or beyond
-- `teams_max` is refused like (size_t) -1, which `int psync_idx` reads as -1.
unfoldable pub pick_slot : Pe → Team → List ℕ → Created
pick_slot pe team reduced =
    let idx = bit_1st_nonzero reduced in
    if idx == not_found || not (ltb_ℤ (pos idx) (pos pe.teams_max))
    then record { pe = pe; new = none; ret_val = 1 }
    else record {
      pe = record pe {
        psync_pool_avail = bit_clear pe.psync_pool_avail idx;
        team_pool = set pe.team_pool idx (
            some
              (record team { psync_idx = pos idx; psync_avail = replicate n_psyncs_per_team 1 }));
      };
      new = some idx;
      ret_val = 0;
    }

-- Store the parent with its flags updated, and note what was asked of communication.
abbrev pub update_team : Pe → Team → List Event → Pe
update_team pe t events = record pe {
  team_pool = set pe.team_pool (slot_of t) (some t);
  trace = pe.trace ++ events;
}

-- Up to the barrier. `bits q` is the `psync_pool_avail` of PE `q`, which the members reduce.
unfoldable pub create : (ℕ → List ℕ) → Pe → Team → Split → Created
unfolding pick_slot
create bits pe parent a =
    let choice = choose_psync pe parent TeamOp.reduce in
    let pe' = update_team pe choice.team choice.events in
    let start = global_start parent a in
    let my_pe = pe_in_active_set (pos pe.rank) start a.pe_stride a.pe_size in
    if my_pe ==ℤ minus_one
    then record { pe = pe'; new = none; ret_val = 0 }
    else pick_slot
        (record pe' {
          trace = pe'.trace ++ (Event.reduce_band start a.pe_stride a.pe_size choice.psync ∷ []);
        })
        (child parent a my_pe)
        (reduce_band (pos_part start) (pos_part a.pe_stride) (pos_part a.pe_size) bits)

-- The barrier on the parent, and the choice of a pSync for the second reduction.
unfoldable pub finish : Pe → Team → Pe
finish pe parent =
    let first = choose_psync pe (release_psyncs parent TeamOp.reduce) TeamOp.sync in
    let freed = release_psyncs first.team TeamOp.sync in
    let second = choose_psync pe freed TeamOp.reduce in
    update_team pe (release_psyncs second.team TeamOp.reduce) (
      first.events
      ++ (Event.barrier parent.start parent.stride parent.size first.psync ∷ [])
      ++ second.events
      ++ (Event.reduce_max parent.start parent.stride parent.size second.psync ∷ []))

-- What the caller sees: the return value, `*new_team` and the state of the PE.
pub record Result : Type 0 where
  pub ret : ℤ
  pub new : Option ℕ
  pub pe : Pe

-- `team_ret_val` of a PE at the second reduction; a PE whose parent handle is no team puts nothing.
unfoldable pub ret_val_of : (ℕ → Pe) → ℕ → Split → ℕ → ℕ
unfolding create
ret_val_of job slot a q = elim (team_at (job q) slot) [
  | none ↦ 0
  | some parent ↦ (create (λ r. (job r).psync_pool_avail) (job q) parent a).ret_val
]

unfoldable pub split_strided : (ℕ → Pe) → ℕ → Option ℕ → Split → Result
unfolding create finish accepts ret_val_of
split_strided job me none a = record { ret = pos 1; new = none; pe = job me }
split_strided job me (some slot) a = elim (team_at (job me) slot) [
  | none ↦ record { ret = pos 1; new = none; pe = job me }
  | some parent ↦
      if not (accepts (job me).num_pes parent a)
      then record { ret = minus_one; new = none; pe = job me }
      else let c = create (λ q. (job q).psync_pool_avail) (job me) parent a in
        record {
          ret = pos (
              reduce_max (pos_part parent.start) (pos_part parent.stride) (pos_part parent.size)
                (ret_val_of job slot a));
          new = c.new;
          pe = elim (team_at c.pe slot) [ none ↦ c.pe | some p ↦ finish c.pe p ];
        }
]
