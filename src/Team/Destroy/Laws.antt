-- ===== src/Team/Destroy/Laws.antt =====
-- What `shmem_internal_team_destroy` and `shmem_internal_team_fini` of src/shmem_team.c leave behind.
use sandia_shmem.Base.{
  List, [], ◌∷◌, Option, ◌*◌, length, ℕ, zero, suc, ◌+◌, ◌<◌, ◌≡◌, refl, ◌∙◌, ap, none, some, ◌++◌,
  arith, set, get_elem?-none, dec_lt, ◌==◌, if◌then◌else◌, Option-cases, inl, inr,
}
use sandia_shmem.Base.Int.{pos_part}
use sandia_shmem.BitSet.{bit_fetch, bit_set}
use sandia_shmem.BitSet.Laws.{bit_fetch-bit_set, bit_set-IsBytes, length-bit_set}
use sandia_shmem.Team.{Team, Pe, Ctx, Event, join, team_at, slot_of}
use sandia_shmem.Team.Pool.{IsValid, write-IsValid, team_at-lt, join-set}
use sandia_shmem.Team.Destroy.{
  done, drop_contexts, destroy_team, team_destroy, destroy_from, team_fini,
}

-- Slot `i` is given back, and no other slot is touched.
pub record Freed (pe : Pe) (i : ℕ) (pe' : Pe) : Type 0 where
  pub valid : IsValid pe'
  pub same_max : pe'.teams_max ≡ pe.teams_max
  pub bit : bit_fetch pe'.psync_pool_avail i ≡ 1
  pub pool : (j : ℕ) → team_at pe' j ≡ (if i == j then none else team_at pe j)

abbrev freed : Pe → Team → ℕ → Pe
freed pe t i = record pe {
  psync_pool_avail = bit_set pe.psync_pool_avail i;
  team_pool = set pe.team_pool i none;
  trace = pe.trace ++ drop_contexts t.contexts;
}

module _ {pe : Pe} (v : IsValid pe) (i : ℕ) (t : Team) (held : team_at pe i ≡ some t) where
  inside : i < pe.teams_max
  inside = omega (arith, v.slots, team_at-lt pe i t held)

  bits_after :
      (j : ℕ)
      → bit_fetch (bit_set pe.psync_pool_avail i) j
        ≡ (if i == j then 1 else bit_fetch pe.psync_pool_avail j)
  bits_after j =
      bit_fetch-bit_set pe.psync_pool_avail i j v.bytes (omega (arith, v.small, v.width, inside))

  freed-Freed : Freed pe i (freed pe t i)
  freed-Freed = record {
    valid =
        write-IsValid v i 1 none (bit_set pe.psync_pool_avail i) _ inside refl
          (bit_set-IsBytes pe.psync_pool_avail i v.bytes)
          (length-bit_set pe.psync_pool_avail i ∙ v.width) bits_after;
    same_max = refl;
    bit = ground (arith, bits_after i);
    pool = λ j. join-set pe.team_pool i j none (omega (arith, v.slots, inside));
  }

  destroy_team-freed : destroy_team pe t ≡ done (freed pe t i)
  unfolding destroy_team
  destroy_team-freed =
      let slot : slot_of t ≡ i = ap pos_part (v.taken i t held).0 in
      rw slot (rw ((v.taken i t held).1) refl)

-- How many contexts the program has left.
unfoldable pub present : List (Option Ctx) → ℕ
present [] = 0
present (none ∷ cs) = present cs
present (some c ∷ cs) = present cs + 1

-- Each context that is left is quieted and then destroyed, before the next one, and nothing else happens: behind two events
-- for each context before it come its own two, and there are two for each context in all.
pub record Dropped (contexts : List (Option Ctx)) (events : List Event) : Type 0 where
  pub total : length events ≡ present contexts * 2
  pub each :
      (before after : List (Option Ctx)) (c : Ctx)
      → contexts ≡ before ++ (some c ∷ after)
      → (xs : List Event) × (ys : List Event) × (events
          ≡ xs ++ (Event.ctx_quiet c ∷ Event.ctx_destroy c ∷ ys))
        × (length xs ≡ present before * 2)

length-drop_contexts : (cs : List (Option Ctx)) → length (drop_contexts cs) ≡ present cs * 2
unfolding drop_contexts present
length-drop_contexts [] = refl
length-drop_contexts (none ∷ cs) = length-drop_contexts cs
length-drop_contexts (some c ∷ cs) = let rest = length-drop_contexts cs in omega (arith, rest)

drop_contexts-append :
    (xs ys : List (Option Ctx)) → drop_contexts (xs ++ ys) ≡ drop_contexts xs ++ drop_contexts ys
unfolding drop_contexts
drop_contexts-append [] ys = refl
drop_contexts-append (none ∷ xs) ys = drop_contexts-append xs ys
drop_contexts-append (some c ∷ xs) ys =
    ap (λ l. Event.ctx_quiet c ∷ Event.ctx_destroy c ∷ l) (drop_contexts-append xs ys)

drop_contexts-Dropped : (cs : List (Option Ctx)) → Dropped cs (drop_contexts cs)
unfolding drop_contexts
drop_contexts-Dropped cs = record {
  total = length-drop_contexts cs;
  each = λ before after c e. (
    drop_contexts before,
    drop_contexts after,
    ap drop_contexts e ∙ drop_contexts-append before (some c ∷ after),
    length-drop_contexts before,
  );
}

-- In a valid state, destroying the team in slot i never stops the program: it returns 0, keeps the
-- state valid, sets the slot's bit, empties that slot and no other, and quiets and then destroys each
-- context of the team that is left, one after the other in the order of the array, and no other.
pub team_destroy_lem :
    {pe : Pe}
    → IsValid pe
    → (i : ℕ) (t : Team) → team_at pe i ≡ some t
    → (pe' : Pe) × (team_destroy pe (some i) ≡ done pe')
      × Freed pe i pe'
      × ((events : List Event) × (pe'.trace ≡ pe.trace ++ events) × Dropped t.contexts events)
unfolding team_destroy
team_destroy_lem {pe} v i t held = (
  freed pe t i,
  rw (held, team_destroy) (destroy_team-freed v i t held),
  freed-Freed v i t held,
  (drop_contexts t.contexts, refl, drop_contexts-Dropped t.contexts),
)

-- No team is left below slot `i`.
record Emptied (i : ℕ) (pe : Pe) : Type 0 where
  valid : IsValid pe
  empty : (j : ℕ) → j < i → team_at pe j ≡ none

Emptied-all : {pe : Pe} → Emptied pe.teams_max pe → (i : ℕ) → team_at pe i ≡ none
Emptied-all {pe} h i = elim (dec_lt i pe.teams_max) [
  | yes lt ↦ h.empty i lt
  | no ge ↦ ap join (get_elem?-none pe.team_pool i (omega (arith, h.valid.slots)))
]

destroy_from_lem :
    (left i : ℕ) (pe : Pe)
    → left + i ≡ pe.teams_max
    → Emptied i pe
    → (pe' : Pe) × (destroy_from left i pe ≡ done pe') × Emptied pe'.teams_max pe'
unfolding destroy_from
destroy_from_lem zero i pe e h =
    (pe, refl, record { valid = h.valid; empty = λ j lt. h.empty j (omega arith) })
destroy_from_lem (suc left) i pe e h = elim (Option-cases (team_at pe i)) [
  | inl vacant ↦
      let (pe', runs, out) =
        destroy_from_lem left (i + 1) pe (omega arith)
          (record { valid = h.valid; empty = λ j lt. ground (arith, h.empty j) }) in
      (pe', rw (vacant, destroy_from) runs, out)
  | inr (t, held) ↦
      let f = freed-Freed h.valid i t held in
      let (pe', runs, out) =
        destroy_from_lem left (i + 1) (freed pe t i) (omega arith)
          (record { valid = f.valid; empty = λ j lt. ground (arith, f.pool j, h.empty j) }) in
      (pe', rw (held, destroy_from) (rw (destroy_team-freed h.valid i t held) runs), out)
]

-- From a valid state, finalizing the teams never stops the program: it ends in a valid state with
-- no team in any slot, and with the bit of every slot below TEAMS_MAX set.
pub team_fini_lem :
    {pe : Pe}
    → IsValid pe
    → (pe' : Pe) × (team_fini pe ≡ done pe')
      × IsValid pe'
      × ((i : ℕ) → team_at pe' i ≡ none)
      × ((i : ℕ) → i < pe'.teams_max → bit_fetch pe'.psync_pool_avail i ≡ 1)
unfolding team_fini
team_fini_lem {pe} v =
    let (pe', runs, out) =
      destroy_from_lem pe.teams_max 0 pe (omega arith)
        (record { valid = v; empty = λ j lt. absurd (omega arith) }) in
    (pe', runs, out.valid, Emptied-all out, (λ i lt. out.valid.free i lt (out.empty i lt)))
