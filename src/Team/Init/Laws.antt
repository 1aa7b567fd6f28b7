-- ===== src/Team/Init/Laws.antt =====
-- `shmem_internal_team_init` of src/shmem_team.c against the invariant of the team state.
use sandia_shmem.Base.{
  ℕ, zero, suc, ◌+◌, ◌<◌, ◌≤◌, ◌≡◌, refl, ◌∙◌, false, List, Option, none, some, arith, length,
  length-set, length-replicate, get_elem?, set, replicate, dec_lt, ◌==◌, if◌then◌else◌,
  Option-cases,
}
use mathlib.Core.Logic.{ite, inl, inr}
use sandia_shmem.Base.Int.{pos, ltb_ℤ}
use sandia_shmem.BitSet.{bit_fetch, bit_set, bit_clear}
use sandia_shmem.BitSet.Laws.{
  IsBytes, bit_fetch-bit_set, bit_fetch-bit_clear, bit_fetch-zeros, bit_set-IsBytes,
  bit_clear-IsBytes, length-bit_set, length-bit_clear,
}
use sandia_shmem.Team.{Team, Pe, join, team_at}
use sandia_shmem.Team.Pool.{IsValid, join-set}
use sandia_shmem.Team.Stride.{Triple}
use sandia_shmem.Team.Init.{
  Setup, ready, fresh_team, shared_triple, set_slots, initial_avail, initial_pe, raised_max,
  team_init,
}

-- An array of eight bytes with these bits.
record Bits (xs : List ℕ) (bit : ℕ → ℕ) : Type 0 where
  bytes : IsBytes xs
  width : length xs ≡ 8
  bits : (j : ℕ) → bit_fetch xs j ≡ bit j

Bits-set :
    (xs : List ℕ) (bit : ℕ → ℕ) (i : ℕ)
    → i < 64
    → Bits xs bit
    → Bits (bit_set xs i) (λ j. if i == j then 1 else bit j)
Bits-set xs bit i h b = record {
  bytes = bit_set-IsBytes xs i b.bytes;
  width = length-bit_set xs i ∙ b.width;
  bits = λ j. ground (arith, bit_fetch-bit_set xs i j b.bytes (omega (arith, b.width)), b.bits j);
}

Bits-clear :
    (xs : List ℕ) (bit : ℕ → ℕ) (i : ℕ)
    → i < 64
    → Bits xs bit
    → Bits (bit_clear xs i) (λ j. if i == j then 0 else bit j)
Bits-clear xs bit i h b = record {
  bytes = bit_clear-IsBytes xs i b.bytes;
  width = length-bit_clear xs i ∙ b.width;
  bits = λ j. ground (arith, bit_fetch-bit_clear xs i j b.bytes (omega (arith, b.width)), b.bits j);
}

Bits-ext :
    (xs : List ℕ) (bit bit' : ℕ → ℕ) → ((j : ℕ) → bit j ≡ bit' j) → Bits xs bit → Bits xs bit'
Bits-ext xs bit bit' same b = record {
  bytes = b.bytes;
  width = b.width;
  bits = λ j. b.bits j ∙ same j;
}

-- The slots from `i` on, `left` of them.
abbrev in_range : ℕ → ℕ → (ℕ → ℕ) → ℕ → ℕ
in_range i left bit j = ite (dec_lt j i) (bit j) (ite (dec_lt j (i + left)) 1 (bit j))

set_slots-Bits :
    (left : ℕ) (xs : List ℕ) (bit : ℕ → ℕ) (i : ℕ)
    → i + left ≤ 64
    → Bits xs bit
    → Bits (set_slots xs left i) (in_range i left bit)
unfolding set_slots
set_slots-Bits zero xs bit i h b = Bits-ext xs bit (in_range i zero bit) (λ j. ground arith) b
set_slots-Bits (suc left) xs bit i h b =
    Bits-ext _ _ (in_range i (suc left) bit) (λ j. ground arith)
      (set_slots-Bits left (bit_set xs i) _ (i + 1) (omega arith)
        (Bits-set xs bit i (omega arith) b))

no-Bits : Bits (replicate 8 0) (λ _. 0)
no-Bits = record { bytes = omega arith; width = refl; bits = bit_fetch-zeros 8 }

-- The bits that are set once the pool of `m` slots is ready.
abbrev slot_bit : ℕ → ℕ → ℕ
slot_bit m j = ite (dec_lt j 2) 0 (ite (dec_lt j m) 1 0)

initial_avail-Bits : (m : ℕ) → m ≤ 64 → Bits (initial_avail m) (slot_bit m)
unfolding initial_avail
initial_avail-Bits m h =
    Bits-ext _ _ (slot_bit m) (λ j. ground arith)
      (Bits-clear _ _ 1 (omega arith) (
        Bits-clear _ _ 0 (omega arith)
          (set_slots-Bits m (replicate 8 0) (λ _. 0) 0 (omega arith) no-Bits)))

raised_max_bounds :
    (s : Setup)
    → ltb_ℤ (pos 64) s.teams_max_param ≡ false
    → (2 ≤ raised_max s) × (raised_max s ≤ 64)
unfolding raised_max
raised_max_bounds s h = ground arith

none_at : (m j : ℕ) → join {A = Team} (get_elem? (replicate m none) j) ≡ none
none_at zero j = refl
none_at (suc m) zero = refl
none_at (suc m) (suc j) = none_at m j

initial_max : (s : Setup) (t : Triple) (m : ℕ) → 2 ≤ m → 2 ≤ (initial_pe s t m).teams_max
unfolding initial_pe
initial_max s t m h = h

module _ (s : Setup) (t : Triple) (m : ℕ) (two : 2 ≤ m) (fits : m ≤ 64) where
  abbrev world : Team
  world = fresh_team s.rank (pos 0) (pos 1) (pos s.num_pes) 0

  abbrev shared : Team
  shared = fresh_team s.rank t.start t.stride t.size 1

  initial_pool :
      (j : ℕ)
      → team_at (initial_pe s t m) j
        ≡ (if 1 == j then some shared else if 0 == j then some world else none)
  unfolding initial_pe
  initial_pool j = ground (
    arith,
    length-replicate {A = Option Team} m none,
    length-set (replicate m none) 0 (some world),
    join-set (set (replicate m none) 0 (some world)) 1 j (some shared),
    join-set (replicate m none) 0 j (some world),
    none_at m j,
  )

  initial_pe-IsValid : IsValid (initial_pe s t m)
  unfolding initial_pe
  initial_pe-IsValid = record {
    small = fits;
    slots = length-set _ 1 (some shared) ∙ length-set _ 0 (some world) ∙ length-replicate m none;
    bytes = b.bytes;
    width = b.width;
    taken = λ j u e. ground (arith, initial_pool j, b.bits j);
    free = λ j lt e. ground (arith, initial_pool j, b.bits j);
    beyond = λ j ge. ground (arith, b.bits j);
  }
    where
      b : Bits (initial_avail m) (slot_bit m)
      b = initial_avail-Bits m fits

-- What a successful call has computed.
team_init-ready :
    (s : Setup) {pe : Pe}
    → team_init s ≡ ready pe
    → (t : Triple) × (shared_triple s ≡ some t)
      × (ltb_ℤ (pos 64) s.teams_max_param ≡ false)
      × (pe ≡ initial_pe s t (raised_max s))
unfolding team_init
team_init-ready s {pe} e = elim (Option-cases (shared_triple s)) [
  | inl none_found ↦ absurd (ground arith)
  | inr (t, found) ↦ (t, found, ground arith, ground arith)
]

-- When the initialization succeeds, the state is valid: TEAMS_MAX lies between 2 and 64, slot 0 holds
-- the world team <0, 1, num_pes>, slot 1 the shared team with the triple that was found, and every
-- other slot is free.
pub team_init_lem :
    (s : Setup) {pe : Pe}
    → team_init s ≡ ready pe
    → IsValid pe
      × (2 ≤ pe.teams_max)
      × ((t : Triple) × (shared_triple s ≡ some t)
          × ((j : ℕ)
              → team_at pe j ≡ (
                  if 1 == j
                  then some (fresh_team s.rank t.start t.stride t.size 1)
                  else if 0 == j
                  then some (fresh_team s.rank (pos 0) (pos 1) (pos s.num_pes) 0)
                  else none)))
team_init_lem s {pe} e =
    let (t, found, small, same) = team_init-ready s e in
    let (two, fits) = raised_max_bounds s small in
    rw same (
      initial_pe-IsValid s t (raised_max s) two fits,
      initial_max s t (raised_max s) two,
      (t, found, initial_pool s t (raised_max s) two fits),
    )
