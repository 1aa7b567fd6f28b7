-- ===== src/Comm.antt =====
-- What the PEs of a collective of src/collectives.c ask of the communication layer, as instructions, and the
-- machine that runs the instruction lists of all PEs, interleaved in any order. A collective's code
-- becomes, for each PE, the list of the calls that it makes: `shmem_internal_put_scalar` and
-- `shmem_internal_atomic` with SHM_INTERNAL_SUM on a pSync, SHMEM_WAIT and SHMEM_WAIT_UNTIL, and the
-- calls that move data. A pSync is a row of counters. On the machine of this file data has arrived when the
-- call is made, so that what waits for it (`fence`, `quiet`, `put_wait`) has nothing to do: it serves for
-- the counters and for progress. Comm/Flight has the machine on which data is in flight.
pub mod Cells
pub mod Flight
use mathlib.Core.Path.{subst}
use sandia_shmem.Base.{
  ℕ, ◌+◌, ◌-◌, ◌≡◌, ◌≢◌, refl, inl, inr, ==_iff, Bool-cases, Bool, true, false, not, ◌&&◌, List, [],
  ◌∷◌, Option, none, some, ltb, leb, ◌==◌, if◌then◌else◌, ==_iff, ◌≢◌, Bool-cases, inl, inr,
  Option-cases, arith, suc, sym, ◌∙◌,
}

-- SHMEM_CMP_EQ, _NE, _GT, _GE, _LT and _LE
pub data Cmp : Type 0 where
  eq ne gt ge lt le : Cmp

abbrev pub compares : Cmp → ℕ → ℕ → Bool
compares eq a b = a == b
compares ne a b = not (a == b)
compares gt a b = ltb b a
compares ge a b = leb b a
compares lt a b = ltb a b
compares le a b = leb a b

-- The buffers of a call; `temp` is one that it allocates.
pub data Buffer : Type 0 where
  source target temp : Buffer

abbrev pub same_buffer : Buffer → Buffer → Bool
same_buffer source source = true
same_buffer target target = true
same_buffer temp temp = true
same_buffer _ _ = false

pub data Instr : Type 0 where
  put : (slot value pe : ℕ) → Instr
  add : (slot value pe : ℕ) → Instr  -- an atomic sum
  sub_one : (slot pe : ℕ) → Instr  -- an atomic sum with -1
  wait : (slot : ℕ) → Cmp → (value : ℕ) → Instr
  put_data : Buffer → (to_off : ℕ) → Buffer → (from_off len pe : ℕ) → Instr
  copy : Buffer → (to_off : ℕ) → Buffer → (from_off len : ℕ) → Instr  -- memcpy
  atomicv : Buffer → (from : Buffer) → (len pe : ℕ) → Instr
  reduce_local : (in_off : ℕ) → Buffer → (out_off : ℕ) → Buffer → (len : ℕ) → Instr
  fence quiet put_wait : Instr

-- The counters and the memory of every PE; a buffer is read and written in elements.
pub record Store (A : Type 0) : Type 0 where
  pub psync : ℕ → ℕ → ℕ
  pub mem : ℕ → Buffer → ℕ → A

abbrev pub update {ℓ} : {A : Type ℓ} → (ℕ → A) → ℕ → A → ℕ → A
update f i v j = if i == j then v else f j

abbrev pub set_psync : (ℕ → ℕ → ℕ) → ℕ → ℕ → ℕ → ℕ → ℕ → ℕ
set_psync psync pe slot value = update psync pe (update (psync pe) slot value)

-- The elements off, …, off + len - 1 of a buffer of a PE become the values of `new`.
abbrev pub write :
    {A : Type 0} → (ℕ → Buffer → ℕ → A) → ℕ → Buffer → ℕ → ℕ → (ℕ → A) → ℕ → Buffer → ℕ → A
write mem pe buf off len new p b i =
    if (pe == p) && same_buffer buf b && leb off i && ltb i (off + len)
    then new (i - off)
    else mem p b i

-- One instruction of PE `me`, where `op` combines two elements; `none` is a wait that does not end yet.
unfoldable pub exec : {A : Type 0} → (A → A → A) → ℕ → Instr → Store A → Option (Store A)
exec op me (put slot value pe) s = some (record s { psync = set_psync s.psync pe slot value })
exec op me (add slot value pe) s =
    some (record s { psync = set_psync s.psync pe slot (s.psync pe slot + value) })
exec op me (sub_one slot pe) s =
    some (record s { psync = set_psync s.psync pe slot (s.psync pe slot - 1) })
exec op me (wait slot c value) s = if compares c (s.psync me slot) value then some s else none
exec op me (put_data to to_off from from_off len pe) s =
    some (record s { mem = write s.mem pe to to_off len (λ k. s.mem me from (from_off + k)) })
exec op me (copy to to_off from from_off len) s =
    some (record s { mem = write s.mem me to to_off len (λ k. s.mem me from (from_off + k)) })
exec op me (atomicv to from len pe) s =
    some (record s { mem = write s.mem pe to 0 len (λ k. op (s.mem pe to k) (s.mem me from k)) })
exec op me (reduce_local in_off in_buf out_off out_buf len) s = some (record s {
  mem =
      write s.mem me out_buf out_off len
        (λ k. op (s.mem me out_buf (out_off + k)) (s.mem me in_buf (in_off + k)));
})
exec op me _ s = some s

-- What is left to do of each PE, and the store.
pub record Machine (A : Type 0) : Type 0 where
  pub prog : ℕ → List Instr
  pub store : Store A

-- The next instruction of PE `me`.
unfoldable pub step : {A : Type 0} → (A → A → A) → ℕ → Machine A → Option (Machine A)
unfolding exec
step op me m = elim (m.prog me) [
  | [] ↦ none
  | i ∷ rest ↦ elim (exec op me i m.store) [
    | none ↦ none
    | some s ↦ some (record { prog = update m.prog me rest; store = s })
  ]
]

-- The machines that PEs, in any order, lead to.
pub data Runs {A : Type 0} (op : A → A → A) (m : Machine A) : Machine A → Type 0 where
  here : Runs op m m
  next : {a b : Machine A} (me : ℕ) → Runs op m a → step op me a ≡ some b → Runs op m b

pub update_self {ℓ} : {A : Type ℓ} (f : ℕ → A) (i : ℕ) (v : A) → update f i v i ≡ v
update_self f i v = let e : (i == i) ≡ true = (==_iff i i).1 refl in rw e refl

pub update-ne {ℓ} : {A : Type ℓ} (f : ℕ → A) {i j : ℕ} (v : A) → i ≢ j → update f i v j ≡ f j
update-ne f {i} {j} v other = elim (Bool-cases (i == j)) [
  | inl e ↦ absurd (other ((==_iff i j).0 e))
  | inr e ↦ rw e refl
]

-- A step runs the first instruction.
pub step-inv :
    {A : Type 0} (op : A → A → A) (me : ℕ) {i : Instr} {rest : List Instr} (m m' : Machine A)
    → m.prog me ≡ i ∷ rest
    → step op me m ≡ some m'
    → (s : Store A) × (exec op me i m.store ≡ some s)
      × (m' ≡ record { prog = update m.prog me rest; store = s })
unfolding step
step-inv op me {i} {rest} m m' at e = elim (Option-cases (exec op me i m.store)) [
  | inl stuck ↦ absurd (ground (arith, at, e, stuck))
  | inr (s, runs) ↦ (s, runs, ground (arith, at, e, runs))
]

pub step-none :
    {A : Type 0} (op : A → A → A) (me : ℕ) (m : Machine A) → m.prog me ≡ [] → step op me m ≡ none
unfolding step
step-none op me m at = ground (arith, at)

pub exec-wait :
    {A : Type 0} (op : A → A → A) (me slot : ℕ) (c : Cmp) (value : ℕ) (s s' : Store A)
    → exec op me (wait slot c value) s ≡ some s'
    → (compares c (s.psync me slot) value ≡ true) × (s' ≡ s)
unfolding exec
exec-wait op me slot c value s s' e = elim (Bool-cases (compares c (s.psync me slot) value)) [
  | inl on ↦ (on, ground (arith, on, e))
  | inr off ↦ absurd (ground (arith, off, e))
]

-- What a write of one counter leaves in a slot of every PE.
pub set_psync-slot :
    (psync : ℕ → ℕ → ℕ) (pe slot value q : ℕ)
    → set_psync psync pe slot value q slot ≡ update (λ p. psync p slot) pe value q
set_psync-slot psync pe slot value q = ground arith

pub step-some :
    {A : Type 0} (op : A → A → A) (me : ℕ) {i : Instr} {rest : List Instr} (m : Machine A)
    {s : Store A}
    → m.prog me ≡ i ∷ rest
    → exec op me i m.store ≡ some s
    → step op me m ≡ some (record { prog = update m.prog me rest; store = s })
unfolding step
step-some op me m at runs = ground (arith, at, runs)

-- The instruction has to do with this counter only, of any PE.
abbrev pub Touches : ℕ → Instr → Type 0
Touches slot (put i value pe) = i ≡ slot
Touches slot (add i value pe) = i ≡ slot
Touches slot (wait i c value) = i ≡ slot
Touches slot _ = ⊥

-- The number of instructions that PE `p` runs.
abbrev pub taken : {A : Type 0} {op : A → A → A} {m m' : Machine A} → ℕ → Runs op m m' → ℕ
taken p here = 0
taken p (next me r e) = if me == p then suc (taken p r) else taken p r

-- A step has a first instruction, which it runs.
pub step-first :
    {A : Type 0} (op : A → A → A) (me : ℕ) (m m' : Machine A)
    → step op me m ≡ some m'
    → (i : Instr) × (rest : List Instr) × (s : Store A) × (m.prog me ≡ i ∷ rest)
      × (exec op me i m.store ≡ some s)
      × (m' ≡ record { prog = update m.prog me rest; store = s })
step-first {A = A} op me m m' e = by_list (m.prog me) refl
  where
    by_list :
        (l : List Instr)
        → m.prog me ≡ l
        → (i : Instr) × (rest : List Instr) × (s : Store A) × (m.prog me ≡ i ∷ rest)
          × (exec op me i m.store ≡ some s)
          × (m' ≡ record { prog = update m.prog me rest; store = s })
    by_list [] at = let f : none ≡ some m' = sym (step-none op me m at) ∙ e in absurd cc
    by_list (i ∷ rest) at = let (s, ran, to) = step-inv op me m m' at e in (i, rest, s, at, ran, to)

-- The run in which the PEs of the list take one step each, in this order.
unfoldable pub schedule : {A : Type 0} → (A → A → A) → List ℕ → Machine A → Option (Machine A)
schedule op [] m = some m
schedule op (me ∷ rest) m = elim (step op me m) [ none ↦ none | some m' ↦ schedule op rest m' ]

pub schedule-Runs :
    {A : Type 0} (op : A → A → A) (l : List ℕ) {m : Machine A} (a b : Machine A)
    → Runs op m a
    → schedule op l a ≡ some b
    → Runs op m b
unfolding schedule
schedule-Runs op [] {m} a b r e = let same : a ≡ b = cc in subst (Runs op m) same r
schedule-Runs op (me ∷ l) {m} a b r e = elim (Option-cases (step op me a)) [
  | inl stuck ↦ absurd (ground (arith, stuck, e))
  | inr (c, goes) ↦ schedule-Runs op l c b (next me r goes) (ground (arith, goes, e))
]
