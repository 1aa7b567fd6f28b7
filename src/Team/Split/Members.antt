-- ===== src/Team/Split/Members.antt =====
-- What `shmem_internal_team_split_strided` of src/shmem_team.c does on the members of the new team.
use sandia_shmem.Base.{
  ℕ, ◌+◌, ◌*◌, ◌<◌, ◌≡◌, ◌≢◌, ◌⊎◌, inl, inr, sym, ◌∙◌, ap, true, List, none, some, arith, dec_lt,
}
use mathlib.Core.Path.{subst}
use sandia_shmem.Base.Int.{pos}
use sandia_shmem.BitSet.{bit_fetch, bit_1st_nonzero}
use sandia_shmem.BitSet.First.{IsEmpty, IsFirst}
use sandia_shmem.Team.{Team, Pe, team_at}
use sandia_shmem.Team.Pool.{IsValid}
use sandia_shmem.Team.Split.{
  Split, Created, Result, accepts, child, create, finish, pick_slot, split_strided,
}
use sandia_shmem.Team.Psync.Laws.{SameTeam-trans}
use sandia_shmem.Team.Split.Pick.{Within, Took, taken_slot, pick_slot-cases}
use sandia_shmem.Team.Split.Create.{
  Touched, Touched-trace, finish-Touched, chosen-Touched, index_of, picking, reduced, create-member,
}
use sandia_shmem.Team.Split.Agree.{
  IsJob, bits_of, Shape, IsCommon, Joined, split-new, split-pe, meet, IsCommon-of_hit,
  hit_of_common, index_of-member,
}

-- No slot is free on all members.
pub record NoneLeft (job : ℕ → Pe) (s d z : ℕ) (r : Result) : Type 0 where
  pub new : r.new ≡ none
  pub valid : IsValid r.pe
  pub exhausted : (j : ℕ) → ¬ IsCommon job s d z j

-- The PE of index `k` has joined the new team in the least slot that is free on all members.
pub record Member (job : ℕ → Pe) (me slot : ℕ) (parent : Team) (a : Split) (s d z k : ℕ)
    (r : Result) (idx : ℕ) : Type 0 where
  pub new : r.new ≡ some idx
  pub common : IsCommon job s d z idx
  pub least : (j : ℕ) → j < idx → ¬ IsCommon job s d z j
  pub joined : Joined (job me) slot parent a k idx r.pe

module _ {job : ℕ → Pe} {n m : ℕ} (is_job : IsJob job n m) (slot : ℕ) {parent : Team} {a : Split}
    {s d z k : ℕ} (shape : Shape parent a s d z) (lt : k < z)
    (held : team_at (job (s + d * k)) slot ≡ some parent) where
  abbrev me : ℕ
  me = s + d * k

  abbrev bits : List ℕ
  bits = reduced (bits_of job) parent a

  abbrev at_pick : Pe
  at_pick = picking (job me) parent a

  touched : Touched (job me) slot parent at_pick
  touched = Touched-trace _ (chosen-Touched slot parent (is_job.valid me) held)

  within : Within at_pick bits
  within j e = rw touched.same_bits (
      subst (λ q. bit_fetch (bits_of job q) j ≡ 1) (omega arith)
        (IsCommon-of_hit is_job shape j e k lt))

  index : index_of (job me).rank parent a ≡ pos k
  index = rw (is_job.rank me) (index_of-member is_job shape k lt)

  created : create (bits_of job) (job me) parent a ≡ pick_slot at_pick (child parent a (pos k)) bits
  created =
      create-member (bits_of job) (job me) parent a (rw index (ground arith))
      ∙ ap (λ x. pick_slot at_pick (child parent a x) bits) index

  cases :
      let idx = bit_1st_nonzero bits in
      (IsEmpty bits
        × (pick_slot at_pick (child parent a (pos k)) bits
            ≡ record { pe = at_pick; new = none; ret_val = 1 }))
      ⊎ (IsFirst bits idx
          × (pick_slot at_pick (child parent a (pos k)) bits ≡ record {
            pe = taken_slot at_pick (child parent a (pos k)) idx;
            new = some idx;
            ret_val = 0;
          })
          × Took at_pick
              (child parent a (pos k))
              idx
              (taken_slot at_pick (child parent a (pos k)) idx))
  cases =
      pick_slot-cases (child parent a (pos k)) bits touched.valid (meet is_job shape).array.bytes
        within

  module _ (accepted : accepts (job me).num_pes parent a ≡ true) where
    abbrev result : Result
    result = split_strided job me (some slot) a

    -- The end of the call, from the state at the barrier.
    ends :
        (c : Created) (p : Team)
        → create (bits_of job) (job me) parent a ≡ c
        → team_at c.pe slot ≡ some p
        → (result.new ≡ c.new) × (result.pe ≡ finish c.pe p)
    ends c p e at_slot = (
      split-new job me slot parent a held accepted ∙ ap (λ x. x.new) e,
      split-pe job me slot parent a held accepted p (ap (λ x. team_at x.pe slot) e ∙ at_slot)
          ∙ ap (λ x. finish x.pe p) e,
    )

    none_left :
        IsEmpty bits
        → pick_slot at_pick (child parent a (pos k)) bits
          ≡ record { pe = at_pick; new = none; ret_val = 1 }
        → NoneLeft job s d z result
    none_left empty e =
        let (new, pe) = ends _ touched.new_flags (created ∙ e) touched.held in
        record {
          new = new;
          valid = rw pe ((finish-Touched slot touched.new_flags touched.valid touched.held).valid);
          exhausted = λ j c. absurd (omega (arith, empty j, hit_of_common is_job shape j c));
        }

    joins :
        (idx : ℕ)
        → IsFirst bits idx
        → pick_slot at_pick (child parent a (pos k)) bits ≡ record {
          pe = taken_slot at_pick (child parent a (pos k)) idx;
          new = some idx;
          ret_val = 0;
        }
        → Took at_pick
            (child parent a (pos k))
            idx
            (taken_slot at_pick (child parent a (pos k)) idx)
        → Member job me slot parent a s d z k result idx
    joins idx first e took =
        let other : idx ≢ slot = λ q. ground (arith, took.vacant, touched.held) in
        let at_slot : team_at (taken_slot at_pick (child parent a (pos k)) idx) slot
            ≡ some touched.new_flags =
          ground (arith, took.pool slot, touched.held, other) in
        let (new, pe) = ends _ touched.new_flags (created ∙ e) at_slot in
        let f = finish-Touched slot touched.new_flags took.valid at_slot in
        record {
          new = new;
          common = IsCommon-of_hit is_job shape idx first.hit;
          least =
              λ j lt c. absurd (omega (arith, first.before j lt, hit_of_common is_job shape j c));
          joined = rw pe (record {
            valid = f.valid;
            vacant = sym (touched.others idx (λ q. other (sym q))) ∙ took.vacant;
            held = f.others idx (λ q. other (sym q)) ∙ ground (arith, took.pool idx);
            parent_now = f.new_flags;
            parent_held = f.held;
            parent_kept = SameTeam-trans touched.same_team f.same_team;
            others = λ j ns ni. f.others j ns ∙ ground (arith, took.pool j, touched.others j ns);
          });
        }

    pub split_strided-Member :
        NoneLeft job s d z result ⊎ ((idx : ℕ) × Member job me slot parent a s d z k result idx)
    split_strided-Member = elim cases [
      | inl (empty, e) ↦ inl (none_left empty e)
      | inr (first, e, took) ↦ inr (bit_1st_nonzero bits, joins (bit_1st_nonzero bits) first e took)
    ]

-- The answer is fixed by the bits of the members.
Outcome-unique :
    {job : ℕ → Pe} {s d z me me' slot slot' k k' : ℕ} {parent parent' : Team} {a a' : Split}
    {r r' : Result}
    → NoneLeft job s d z r ⊎ ((idx : ℕ) × Member job me slot parent a s d z k r idx)
    → NoneLeft job s d z r' ⊎ ((idx : ℕ) × Member job me' slot' parent' a' s d z k' r' idx)
    → r.new ≡ r'.new
Outcome-unique (inl f) (inl f') = f.new ∙ sym f'.new
Outcome-unique (inl f) (inr (idx, g)) = absurd (f.exhausted idx g.common)
Outcome-unique (inr (idx, g)) (inl f) = absurd (f.exhausted idx g.common)
Outcome-unique (inr (idx, g)) (inr (idx', g')) = elim (dec_lt idx idx') [
  | yes lt ↦ absurd (g'.least idx lt g.common)
  | no ge ↦ elim (dec_lt idx' idx) [
    | yes lt ↦ absurd (g.least idx' lt g'.common)
    | no ge' ↦ g.new ∙ ap some (omega arith) ∙ sym g'.new
  ]
]

-- Any two members of the new team <s, d, z>, called on valid states with arguments that the checks
-- accept, get the same answer: the same slot, or no team on both.
-- Their parents, which stand in one and the same slot of the two pools, may be different teams, as may
-- the arguments, as long as they give that same triple.
pub split_strided-agree :
    {job : ℕ → Pe} {n m : ℕ} (is_job : IsJob job n m) (slot : ℕ) {parent parent' : Team}
    {a a' : Split} {s d z k k' : ℕ}
    → Shape parent a s d z
    → Shape parent' a' s d z
    → k < z
    → k' < z
    → team_at (job (s + d * k)) slot ≡ some parent
    → team_at (job (s + d * k')) slot ≡ some parent'
    → accepts (job (s + d * k)).num_pes parent a ≡ true
    → accepts (job (s + d * k')).num_pes parent' a' ≡ true
    → (split_strided job (s + d * k) (some slot) a).new
      ≡ (split_strided job (s + d * k') (some slot) a').new
split_strided-agree is_job slot shape shape' lt lt' held held' acc acc' =
    Outcome-unique (split_strided-Member is_job slot shape lt held acc)
      (split_strided-Member is_job slot shape' lt' held' acc')
