-- ===== src/Team/Pool.antt =====
-- The invariant of one PE's team state, src/shmem_team.c: the bits of `psync_pool_avail` and the slots
-- of `shmem_internal_team_pool` agree.
use sandia_shmem.Base.{
  ℕ, ◌*◌, ◌<◌, ◌≤◌, ◌≡◌, refl, ◌∙◌, ap, sym, none, some, List, Option, arith, length, length-set,
  set, get_elem?, get_elem?-set, get_elem?-none, dec_lt, ◌==◌, if◌then◌else◌, Option-cases, inl,
  inr,
}
use sandia_shmem.Base.Int.{pos, pos_part}
use sandia_shmem.BitSet.{bit_fetch}
use sandia_shmem.BitSet.Laws.{IsBytes}
use sandia_shmem.Team.{Team, Pe, Event, join, team_at, slot_of, n_psync_bytes}

-- A slot below `teams_max` holds a team, with that slot as its index, exactly when its bit is 0, and
-- no bit is set beyond `teams_max`.
pub record IsValid (pe : Pe) : Type 0 where
  pub small : pe.teams_max ≤ n_psync_bytes * 8
  pub slots : length pe.team_pool ≡ pe.teams_max
  pub bytes : IsBytes pe.psync_pool_avail
  pub width : length pe.psync_pool_avail ≡ n_psync_bytes
  pub taken :
      (i : ℕ) (t : Team)
      → team_at pe i ≡ some t
      → (t.psync_idx ≡ pos i) × (bit_fetch pe.psync_pool_avail i ≡ 0)
  pub free : (i : ℕ) → i < pe.teams_max → team_at pe i ≡ none → bit_fetch pe.psync_pool_avail i ≡ 1
  pub beyond : (i : ℕ) → pe.teams_max ≤ i → bit_fetch pe.psync_pool_avail i ≡ 0

pub join-set :
    (pool : List (Option Team)) (i j : ℕ) (v : Option Team)
    → i < length pool
    → join (get_elem? (set pool i v) j) ≡ (if i == j then v else join (get_elem? pool j))
join-set pool i j v h = ground (arith, get_elem?-set pool i j v h)

-- A team's slot lies in the pool.
pub team_at-lt : (pe : Pe) (i : ℕ) (t : Team) → team_at pe i ≡ some t → i < length pe.team_pool
team_at-lt pe i t e = elim (dec_lt i (length pe.team_pool)) [
  | yes lt ↦ lt
  | no ge ↦ ground (arith, get_elem?-none pe.team_pool i)
]

-- A slot's entry and its bit.
abbrev pub Agrees : ℕ → Option Team → ℕ → Type 0
Agrees i none b = b ≡ 1
Agrees i (some t) b = (t.psync_idx ≡ pos i) × (b ≡ 0)

module _ {pe : Pe} (v : IsValid pe) where
  -- A bit that is set names a free slot.
  pub free_slot :
      (i : ℕ) → bit_fetch pe.psync_pool_avail i ≡ 1 → (i < pe.teams_max) × (team_at pe i ≡ none)
  free_slot i e = (
    elim (dec_lt i pe.teams_max) [ yes lt ↦ lt | no ge ↦ absurd (omega (arith, v.beyond i)) ],
    elim (Option-cases (team_at pe i)) [
      | inl empty ↦ empty
      | inr (t, held) ↦ absurd (omega (arith, (v.taken i t held).1))
    ],
  )

  -- Writing a slot together with its bit keeps the invariant, if the two agree.
  pub write-IsValid :
      (i b : ℕ) (o : Option Team) (bits : List ℕ) (log : List Event)
      → i < pe.teams_max
      → Agrees i o b
      → IsBytes bits
      → length bits ≡ n_psync_bytes
      → ((j : ℕ) → bit_fetch bits j ≡ (if i == j then b else bit_fetch pe.psync_pool_avail j))
      → IsValid
          (record pe { team_pool = set pe.team_pool i o; psync_pool_avail = bits; trace = log })
  write-IsValid i b o bits log lt agrees bytes width bit = record {
    small = v.small;
    slots = length-set pe.team_pool i o ∙ v.slots;
    bytes = bytes;
    width = width;
    taken = λ j t e. ground (arith, bit j, entry j, v.taken j t, agrees_some o t agrees);
    free = λ j jlt e. ground (arith, bit j, entry j, v.free j jlt, agrees_none o agrees);
    beyond = λ j ge. ground (arith, bit j, v.beyond j ge);
  }
    where
      entry :
          (j : ℕ) → join (get_elem? (set pe.team_pool i o) j) ≡ (if i == j then o else team_at pe j)
      entry j = join-set pe.team_pool i j o (omega (arith, v.slots))

      agrees_some :
          (o : Option Team) (t : Team) → Agrees i o b → o ≡ some t → (t.psync_idx ≡ pos i) × (b ≡ 0)
      agrees_some none t a e = cc
      agrees_some (some u) t a e = let q : u ≡ t = cc in (ap (λ x. x.psync_idx) (sym q) ∙ a.0, a.1)

      agrees_none : (o : Option Team) → Agrees i o b → o ≡ none → b ≡ 1
      agrees_none none a e = a
      agrees_none (some u) a e = cc

  -- Storing a team again under its own slot, with other flags, keeps the invariant.
  pub restore-IsValid :
      (i : ℕ) (t t' : Team) (log : List Event)
      → team_at pe i ≡ some t
      → t'.psync_idx ≡ t.psync_idx
      → IsValid (record pe { team_pool = set pe.team_pool (slot_of t') (some t'); trace = log })
  restore-IsValid i t t' log e same = rw slot (
      write-IsValid i 0 (some t') pe.psync_pool_avail log
        (omega (arith, v.slots, team_at-lt pe i t e)) (same ∙ (v.taken i t e).0, refl) v.bytes
        v.width (λ j. ground (arith, (v.taken i t e).1)))
    where
      slot : slot_of t' ≡ i
      slot = ap pos_part (same ∙ (v.taken i t e).0)
