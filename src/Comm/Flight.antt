-- ===== src/Comm/Flight.antt =====
-- The machine of Comm with data in flight, for the collectives of src/collectives.c that move data. A put of data
-- leaves its PE at the call and reaches its target at a later move, at any time and in any order, as
-- `shmem_internal_put_nbi` and `_put_nb` may; what it reads from its source it reads then. `quiet` ends
-- once nothing of the PE is in flight. So does `fence` where `fence_waits`, as in `shmem_transport_fence` of
-- src/transport_ofi.h, which calls `shmem_transport_put_quiet` unless WANT_TOTAL_DATA_ORDERING; without
-- it, `fence` does nothing. `put_wait` is about the source only.
pub mod Shadow
pub mod Cells
use mathlib.Core.Path.{subst}
use sandia_shmem.Base.{
  refl, sym, ◌∙◌, inl, inr, Option-cases, none_some, some-injective, ℕ, ◌≡◌, Bool, true, false,
  ◌&&◌, ◌||◌, List, [], ◌∷◌, Option, none, some, ◌==◌, if◌then◌else◌, zero, suc,
}
use sandia_shmem.Comm.{Instr, put_data, atomicv, fence, quiet, Store, Machine, exec, update}

-- The instruction moves data to another PE.
unfoldable pub flies : Instr → Bool
flies (put_data to to_off from from_off len pe) = true
flies (atomicv to from len pe) = true
flies _ = false

-- The instruction waits for the data that its PE has in flight.
unfoldable pub completes : Bool → Instr → Bool
completes fence_waits fence = fence_waits
completes fence_waits quiet = true
completes fence_waits _ = false

-- `pending` is what is in flight, each with its PE.
pub record Flight (A : Type 0) : Type 0 where
  pub machine : Machine A
  pub pending : List (ℕ × Instr)

unfoldable pub outstanding : ℕ → List (ℕ × Instr) → Bool
outstanding me [] = false
outstanding me (parcel ∷ rest) = (parcel.0 == me) || outstanding me rest

-- The instruction `i`, the first of PE `me`, before `rest`.
unfoldable pub begin :
    {A : Type 0} → (A → A → A) → Bool → ℕ → Instr → List Instr → Flight A → Option (Flight A)
unfolding exec flies completes outstanding
begin op fence_waits me i rest f =
    let prog = update f.machine.prog me rest in
    if flies i
    then some (record {
      machine = record { prog = prog; store = f.machine.store };
      pending = (me, i) ∷ f.pending;
    })
    else if completes fence_waits i && outstanding me f.pending
    then none
    else elim (exec op me i f.machine.store) [
      | none ↦ none
      | some s ↦ some (record { machine = record { prog = prog; store = s }; pending = f.pending })
    ]

-- The next instruction of PE `me`; `none` is a wait that does not end yet.
unfoldable pub advance : {A : Type 0} → (A → A → A) → Bool → ℕ → Flight A → Option (Flight A)
unfolding begin
advance op fence_waits me f = elim (f.machine.prog me) [
  | [] ↦ none
  | i ∷ rest ↦ begin op fence_waits me i rest f
]

-- What is in flight, less the entry at place `k`, and that entry.
unfoldable pub pick : ℕ → List (ℕ × Instr) → Option ((ℕ × Instr) × List (ℕ × Instr))
pick k [] = none
pick zero (parcel ∷ rest) = some (parcel, rest)
pick (suc k) (parcel ∷ rest) = elim (pick k rest) [
  | none ↦ none
  | some (chosen, others) ↦ some (chosen, parcel ∷ others)
]

-- The entry at place `k` arrives.
unfoldable pub deliver : {A : Type 0} → (A → A → A) → ℕ → Flight A → Option (Flight A)
unfolding exec pick
deliver op k f = elim (pick k f.pending) [
  | none ↦ none
  | some (parcel, rest) ↦ elim (exec op parcel.0 parcel.1 f.machine.store) [
    | none ↦ none
    | some s ↦
        some (record { machine = record { prog = f.machine.prog; store = s }; pending = rest })
  ]
]

-- What calls and arrivals, in any order, lead to from `m`, with nothing in flight.
pub data Flights {A : Type 0} (op : A → A → A) (fence_waits : Bool) (m : Machine A)
    : Flight A → Type 0 where
  ready : Flights op fence_waits m (record { machine = m; pending = [] })
  goes_on :
      {f g : Flight A} (me : ℕ)
      → Flights op fence_waits m f
      → advance op fence_waits me f ≡ some g
      → Flights op fence_waits m g
  arrives :
      {f g : Flight A} (k : ℕ)
      → Flights op fence_waits m f
      → deliver op k f ≡ some g
      → Flights op fence_waits m g

-- A move of a run: a call of a PE, or an arrival.
pub data Move : Type 0 where
  call arrival : ℕ → Move

unfoldable pub fly : {A : Type 0} → (A → A → A) → Bool → List Move → Flight A → Option (Flight A)
unfolding advance deliver
fly op fence_waits [] f = some f
fly op fence_waits (call me ∷ rest) f = elim (advance op fence_waits me f) [
  | none ↦ none
  | some g ↦ fly op fence_waits rest g
]
fly op fence_waits (arrival k ∷ rest) f = elim (deliver op k f) [
  | none ↦ none
  | some g ↦ fly op fence_waits rest g
]

pub fly-Flights :
    {A : Type 0} (op : A → A → A) (fence_waits : Bool) (l : List Move) {m : Machine A}
    (a b : Flight A)
    → Flights op fence_waits m a
    → fly op fence_waits l a ≡ some b
    → Flights op fence_waits m b
unfolding fly
fly-Flights op fence_waits [] {m} a b r e = subst (Flights op fence_waits m) (some-injective e) r
fly-Flights op fence_waits (call me ∷ l) {m} a b r e =
    elim (Option-cases (advance op fence_waits me a)) [
      | inl stuck ↦ none_some (rw (stuck, fly) refl) e
      | inr (c, goes) ↦
          let rest : fly op fence_waits (call me ∷ l) a ≡ fly op fence_waits l c =
            rw (goes, fly) refl in
          fly-Flights op fence_waits l c b (goes_on me r goes) (sym rest ∙ e)
    ]
fly-Flights op fence_waits (arrival k ∷ l) {m} a b r e = elim (Option-cases (deliver op k a)) [
  | inl stuck ↦ none_some (rw (stuck, fly) refl) e
  | inr (c, goes) ↦
      let rest : fly op fence_waits (arrival k ∷ l) a ≡ fly op fence_waits l c =
        rw (goes, fly) refl in
      fly-Flights op fence_waits l c b (arrives k r goes) (sym rest ∙ e)
]
