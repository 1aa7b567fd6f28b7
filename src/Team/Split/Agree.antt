-- ===== src/Team/Split/Agree.antt =====
-- `shmem_internal_team_split_strided` of src/shmem_team.c across the PEs of a job: what the
-- reduced bits say of the members of the new team.
use sandia_shmem.Base.{ℕ, ◌+◌, ◌-◌, ◌*◌, ◌<◌, ◌≡◌, ◌≢◌, refl, true, List, none, some, arith}
use sandia_shmem.Base.Int.{pos}
use sandia_shmem.BitSet.{bit_fetch}
use sandia_shmem.ActiveSet.Laws.{pe_in_active_set_iff}
use sandia_shmem.Team.{Team, Pe, team_at, n_psync_bytes}
use sandia_shmem.Team.Psync.Laws.{SameTeam}
use sandia_shmem.Team.Pool.{IsValid}
use sandia_shmem.Team.Reduce.Laws.{IsArray, IsMeet, reduce_band-IsMeet}
use sandia_shmem.Team.Split.{
  Split, Created, global_start, accepts, child, create, finish, split_strided,
}
use sandia_shmem.Team.Split.Pick.{named}
use sandia_shmem.Team.Split.Create.{index_of, reduced}

-- Every PE is valid, and all have the same limits.
pub record IsJob (job : ℕ → Pe) (n m : ℕ) : Type 0 where
  pub valid : (q : ℕ) → IsValid (job q)
  pub rank : (q : ℕ) → (job q).rank ≡ q
  pub num_pes : (q : ℕ) → (job q).num_pes ≡ n
  pub teams_max : (q : ℕ) → (job q).teams_max ≡ m

abbrev pub bits_of : (ℕ → Pe) → ℕ → List ℕ
bits_of job q = (job q).psync_pool_avail

-- The new team is <s, d, z>.
pub record Shape (parent : Team) (a : Split) (s d z : ℕ) : Type 0 where
  pub start : global_start parent a ≡ pos s
  pub stride : a.pe_stride ≡ pos d
  pub size : a.pe_size ≡ pos z
  pub positive : 0 < d
  pub nonempty : 0 < z

-- Slot `j` is free on every PE of <s, d, z>.
abbrev pub IsCommon : (ℕ → Pe) → ℕ → ℕ → ℕ → ℕ → Type 0
IsCommon job s d z j = (i : ℕ) → i < z → bit_fetch (bits_of job (s + i * d)) j ≡ 1

-- The new team on its PE of index `k`, in slot `idx`: the state is valid, the slot was vacant, the parent in `slot` is the
-- same but for its flags, and no other slot has changed.
pub record Joined (pe : Pe) (slot : ℕ) (parent : Team) (a : Split) (k idx : ℕ) (pe' : Pe)
    : Type 0 where
  pub valid : IsValid pe'
  pub vacant : team_at pe idx ≡ none
  pub held : team_at pe' idx ≡ some (named (child parent a (pos k)) idx)
  pub parent_now : Team
  pub parent_held : team_at pe' slot ≡ some parent_now
  pub parent_kept : SameTeam parent parent_now
  pub others : (j : ℕ) → slot ≢ j → idx ≢ j → team_at pe' j ≡ team_at pe j

module _ (job : ℕ → Pe) (me slot : ℕ) (parent : Team) (a : Split)
    (held : team_at (job me) slot ≡ some parent)
    (accepted : accepts (job me).num_pes parent a ≡ true) where
  abbrev pub mine : Created
  mine = create (bits_of job) (job me) parent a

  pub split-new : (split_strided job me (some slot) a).new ≡ mine.new
  unfolding split_strided
  split-new = rw (held, split_strided) (rw accepted refl)

  pub split-pe :
      (p : Team)
      → team_at mine.pe slot ≡ some p
      → (split_strided job me (some slot) a).pe ≡ finish mine.pe p
  unfolding split_strided
  split-pe p e = rw (held, split_strided) (rw accepted (rw (e, split_strided) refl))

module _ {job : ℕ → Pe} {n m : ℕ} (is_job : IsJob job n m) {parent : Team} {a : Split} {s d z : ℕ}
    (shape : Shape parent a s d z) where
  arrays : (q : ℕ) → IsArray n_psync_bytes (bits_of job q)
  arrays q = record { bytes = (is_job.valid q).bytes; wide = (is_job.valid q).width }

  pub meet :
      IsMeet n_psync_bytes (λ i. bits_of job (s + i * d)) (z - 1) (reduced (bits_of job) parent a)
  meet =
      rw (shape.start, shape.stride, shape.size)
        (reduce_band-IsMeet n_psync_bytes s d z (bits_of job) arrays)

  pub IsCommon-of_hit :
      (j : ℕ) → bit_fetch (reduced (bits_of job) parent a) j ≡ 1 → IsCommon job s d z j
  IsCommon-of_hit j e i lt = meet.lower j e i (omega arith)

  pub hit_of_common :
      (j : ℕ) → IsCommon job s d z j → bit_fetch (reduced (bits_of job) parent a) j ≡ 1
  hit_of_common j c = meet.greatest j (λ i le. c i (omega (arith, shape.nonempty)))

  pub index_of-member : (k : ℕ) → k < z → index_of (s + d * k) parent a ≡ pos k
  index_of-member k lt =
      rw (shape.start, shape.stride, shape.size)
        ((pe_in_active_set_iff (s + d * k) s d z k shape.positive).1 (refl, lt))
