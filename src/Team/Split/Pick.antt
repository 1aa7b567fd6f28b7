-- ===== src/Team/Split/Pick.antt =====
-- How a member of a new team picks its slot, src/shmem_team.c: from the reduced bits alone.
use sandia_shmem.Base.{
  ℕ, ◌<◌, ◌≤◌, ◌≡◌, ◌⊎◌, inl, inr, refl, ◌∙◌, List, none, some, arith, replicate, set, ◌==◌,
  if◌then◌else◌,
}
use sandia_shmem.Base.Int.{pos}
use sandia_shmem.BitSet.{bit_fetch, bit_clear, bit_1st_nonzero, not_found}
use sandia_shmem.BitSet.Laws.{IsBytes, bit_fetch-bit_clear, bit_clear-IsBytes, length-bit_clear}
use sandia_shmem.BitSet.First.{IsEmpty, IsFirst, bit_1st_nonzero_lem}
use sandia_shmem.Team.{Team, Pe, team_at, n_psyncs_per_team}
use sandia_shmem.Team.Pool.{IsValid, free_slot, write-IsValid, join-set}
use sandia_shmem.Team.Split.{pick_slot}

abbrev pub named : Team → ℕ → Team
named t idx = record t { psync_idx = pos idx; psync_avail = replicate n_psyncs_per_team 1 }

abbrev pub taken_slot : Pe → Team → ℕ → Pe
taken_slot pe t idx = record pe {
  psync_pool_avail = bit_clear pe.psync_pool_avail idx;
  team_pool = set pe.team_pool idx (some (named t idx));
}

-- The PE `pe'` has put the new team `t` in the vacant slot `idx`, and touched no other slot.
pub record Took (pe : Pe) (t : Team) (idx : ℕ) (pe' : Pe) : Type 0 where
  pub valid : IsValid pe'
  pub below : idx < pe.teams_max
  pub vacant : team_at pe idx ≡ none
  pub pool : (j : ℕ) → team_at pe' j ≡ (if idx == j then some (named t idx) else team_at pe j)

-- The reduced bits hold only bits of the PE itself.
abbrev pub Within : Pe → List ℕ → Type 0
Within pe reduced = (j : ℕ) → bit_fetch reduced j ≡ 1 → bit_fetch pe.psync_pool_avail j ≡ 1

taken_slot-Took :
    {pe : Pe} (t : Team) (idx : ℕ)
    → IsValid pe
    → bit_fetch pe.psync_pool_avail idx ≡ 1
    → Took pe t idx (taken_slot pe t idx)
taken_slot-Took {pe} t idx v own = record {
  valid =
      write-IsValid v idx 0 (some (named t idx)) (bit_clear pe.psync_pool_avail idx) pe.trace below
        (refl, refl) (bit_clear-IsBytes pe.psync_pool_avail idx v.bytes)
        (length-bit_clear pe.psync_pool_avail idx ∙ v.width)
        (λ j.
          bit_fetch-bit_clear pe.psync_pool_avail idx j v.bytes
            (omega (arith, below, v.small, v.width)));
  below = below;
  vacant = (free_slot v idx own).1;
  pool = λ j. join-set pe.team_pool idx j (some (named t idx)) (omega (arith, below, v.slots));
}
  where
    below : idx < pe.teams_max
    below = (free_slot v idx own).0

pick_slot-refused :
    (pe : Pe) (t : Team) (reduced : List ℕ)
    → bit_1st_nonzero reduced ≡ not_found
    → pick_slot pe t reduced ≡ record { pe = pe; new = none; ret_val = 1 }
unfolding pick_slot
pick_slot-refused pe t reduced e = rw e refl

pick_slot-chosen :
    (pe : Pe) (t : Team) (reduced : List ℕ)
    → bit_1st_nonzero reduced < pe.teams_max
    → pe.teams_max ≤ 64
    → pick_slot pe t reduced ≡ (
        let idx = bit_1st_nonzero reduced in
        record { pe = taken_slot pe t idx; new = some idx; ret_val = 0 })
unfolding pick_slot
pick_slot-chosen pe t reduced lt small = ground arith

-- Whichever way the pick goes on a PE that is valid: with no bit in the reduction it fails and changes
-- nothing, and otherwise it takes the first bit's slot.
pub pick_slot-cases :
    {pe : Pe} (t : Team) (reduced : List ℕ)
    → IsValid pe
    → IsBytes reduced
    → Within pe reduced
    → let idx = bit_1st_nonzero reduced in
      (IsEmpty reduced × (pick_slot pe t reduced ≡ record { pe = pe; new = none; ret_val = 1 }))
      ⊎ (IsFirst reduced idx
          × (pick_slot pe t reduced
              ≡ record { pe = taken_slot pe t idx; new = some idx; ret_val = 0 })
          × Took pe t idx (taken_slot pe t idx))
pick_slot-cases {pe} t reduced v bytes within = elim (bit_1st_nonzero_lem reduced bytes) [
  | inl (missing, empty) ↦ inl (empty, pick_slot-refused pe t reduced missing)
  | inr first ↦
      let took = taken_slot-Took t (bit_1st_nonzero reduced) v (within _ first.hit) in
      inr (first, pick_slot-chosen pe t reduced took.below v.small, took)
]
