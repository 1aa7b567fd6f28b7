-- ===== src/Team/Split/Create.antt =====
-- One PE's share of `shmem_internal_team_split_strided` of src/shmem_team.c up to the barrier, in each
-- of its branches.
use sandia_shmem.Base.{
  ℕ, ◌≡◌, ◌≢◌, refl, ◌∙◌, ap, true, false, List, none, some, arith, ◌==◌, if◌then◌else◌, ◌++◌, ◌∷◌,
  [],
}
use sandia_shmem.Base.Int.{ℤ, pos, pos_part, ◌==ℤ◌}
use sandia_shmem.ActiveSet.{minus_one, pe_in_active_set}
use sandia_shmem.Team.{Team, Pe, Event, TeamOp, team_at, slot_of}
use sandia_shmem.Team.Pool.{IsValid, restore-IsValid, join-set, team_at-lt}
use sandia_shmem.Team.Psync.{choose_psync}
use sandia_shmem.Team.Psync.Laws.{
  SameTeam, SameTeam-trans, choose_psync-SameTeam, release_psyncs-SameTeam,
}
use sandia_shmem.Team.Reduce.{reduce_band}
use sandia_shmem.Team.Split.{Split, global_start, child, update_team, pick_slot, create, finish}

-- The team in slot `i` is the same but for its flags; no other slot and no bit has changed.
pub record Touched (pe : Pe) (i : ℕ) (t : Team) (pe' : Pe) : Type 0 where
  pub valid : IsValid pe'
  pub same_max : pe'.teams_max ≡ pe.teams_max
  pub same_bits : pe'.psync_pool_avail ≡ pe.psync_pool_avail
  pub new_flags : Team
  pub held : team_at pe' i ≡ some new_flags
  pub same_team : SameTeam t new_flags
  pub others : (j : ℕ) → i ≢ j → team_at pe' j ≡ team_at pe j

-- Storing the team of slot `i` again touches that slot.
pub update_team-Touched :
    {pe : Pe} (i : ℕ) (t t' : Team) (log : List Event)
    → IsValid pe
    → team_at pe i ≡ some t
    → SameTeam t t'
    → Touched pe i t (update_team pe t' log)
update_team-Touched {pe} i t t' log v e same = record {
  valid = restore-IsValid v i t t' _ e same.psync_idx;
  same_max = refl;
  same_bits = refl;
  new_flags = t';
  held = ground (arith, entry i);
  same_team = same;
  others = λ j ne. ground (arith, entry j);
}
  where
    slot : slot_of t' ≡ i
    slot = ap pos_part (same.psync_idx ∙ (v.taken i t e).0)

    entry : (j : ℕ) → team_at (update_team pe t' log) j ≡ (if i == j then some t' else team_at pe j)
    entry j = rw slot (join-set pe.team_pool i j (some t') (team_at-lt pe i t e))

-- The barrier and the second reduction only touch the parent's flags.
pub finish-Touched :
    {pe : Pe} (i : ℕ) (t : Team) → IsValid pe → team_at pe i ≡ some t → Touched pe i t (finish pe t)
unfolding finish
finish-Touched {pe} i t v e = update_team-Touched i t _ _ v e (
    SameTeam-trans
      (SameTeam-trans (release_psyncs-SameTeam t TeamOp.reduce)
        (choose_psync-SameTeam pe _ TeamOp.sync))
      (SameTeam-trans (release_psyncs-SameTeam _ TeamOp.sync) (
        SameTeam-trans (choose_psync-SameTeam pe _ TeamOp.reduce)
          (release_psyncs-SameTeam _ TeamOp.reduce))))

-- What is noted of communication does not matter to the state.
pub Touched-trace :
    {pe pe' : Pe} {i : ℕ} {t : Team} (log : List Event)
    → Touched pe i t pe'
    → Touched pe i t (record pe' { trace = log })
Touched-trace log f = record {
  valid = record {
    small = f.valid.small;
    slots = f.valid.slots;
    bytes = f.valid.bytes;
    width = f.valid.width;
    taken = f.valid.taken;
    free = f.valid.free;
    beyond = f.valid.beyond;
  };
  same_max = f.same_max;
  same_bits = f.same_bits;
  new_flags = f.new_flags;
  held = f.held;
  same_team = f.same_team;
  others = f.others;
}

-- The state once the parent's pSync is chosen.
abbrev pub chosen : Pe → Team → Pe
chosen pe parent = let c = choose_psync pe parent TeamOp.reduce in update_team pe c.team c.events

pub chosen-Touched :
    {pe : Pe} (i : ℕ) (t : Team) → IsValid pe → team_at pe i ≡ some t → Touched pe i t (chosen pe t)
chosen-Touched {pe} i t v e =
    update_team-Touched i t _ _ v e (choose_psync-SameTeam pe t TeamOp.reduce)

-- The index of a PE in the new team.
abbrev pub index_of : ℕ → Team → Split → ℤ
index_of rank parent a = pe_in_active_set (pos rank) (global_start parent a) a.pe_stride a.pe_size

-- The state of a member at its pick, the first reduction noted.
abbrev pub picking : Pe → Team → Split → Pe
picking pe parent a =
    let c = choose_psync pe parent TeamOp.reduce in
    record (chosen pe parent) {
      trace =
          (chosen pe parent).trace
          ++ (Event.reduce_band (global_start parent a) a.pe_stride a.pe_size c.psync ∷ []);
    }

abbrev pub reduced : (ℕ → List ℕ) → Team → Split → List ℕ
reduced bits parent a =
    reduce_band (pos_part (global_start parent a)) (pos_part a.pe_stride) (pos_part a.pe_size) bits

pub create-outside :
    (bits : ℕ → List ℕ) (pe : Pe) (parent : Team) (a : Split)
    → (index_of pe.rank parent a ==ℤ minus_one) ≡ true
    → create bits pe parent a ≡ record { pe = chosen pe parent; new = none; ret_val = 0 }
unfolding create
create-outside bits pe parent a e = rw e refl

pub create-member :
    (bits : ℕ → List ℕ) (pe : Pe) (parent : Team) (a : Split)
    → (index_of pe.rank parent a ==ℤ minus_one) ≡ false
    → create bits pe parent a
      ≡ pick_slot
          (picking pe parent a)
          (child parent a (index_of pe.rank parent a))
          (reduced bits parent a)
unfolding create
create-member bits pe parent a e = rw e refl
