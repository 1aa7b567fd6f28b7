-- ===== src/Sync/Shape.antt =====
-- A barrier over a tree of PEs, src/collectives.c: what `sync_linear`, whose tree is a star, and `sync_tree` have in
-- common. A PE is in one of these phases between two instructions.
use sandia_shmem.Base.{
  ℕ, ◌+◌, ◌<◌, ◌≤◌, ◌≡◌, ◌≢◌, Bool, true, false, List, [], ◌∷◌, map, Elem, IsDistinct, length, ◌==◌,
  if◌then◌else◌,
}
use sandia_shmem.Comm.{Instr, put, add, wait, eq, ne}
use sandia_shmem.Sync.Count.{elem_b}

-- The tree, whose PEs are those that `is_member` holds. With `put_acks` an ack is a put, else an atomic sum.
pub record Shape : Type 0 where
  pub slot : ℕ
  pub is_member : ℕ → Bool
  pub root : ℕ
  pub parent : ℕ → ℕ
  pub children : ℕ → List ℕ
  pub put_acks : Bool
  pub depth : ℕ → ℕ
  pub height : ℕ

pub record IsTree (t : Shape) : Type 0 where
  pub root_in : t.is_member t.root ≡ true
  pub root_inner : 0 < length (t.children t.root)
  pub up :
      (p : ℕ)
      → t.is_member p ≡ true
      → p ≢ t.root
      → (t.is_member (t.parent p) ≡ true) × Elem p (t.children (t.parent p))
  pub down :
      (p c : ℕ)
      → t.is_member p ≡ true
      → Elem c (t.children p)
      → (t.is_member c ≡ true) × (t.parent c ≡ p) × (c ≢ t.root)
  pub distinct : (p : ℕ) → t.is_member p ≡ true → IsDistinct (t.children p)
  pub leaves :
      (p c : ℕ)
      → t.put_acks ≡ true
      → t.is_member p ≡ true
      → Elem c (t.children p)
      → t.children c ≡ []
  pub deeper : (p : ℕ) → t.is_member p ≡ true → p ≢ t.root → t.depth (t.parent p) < t.depth p
  pub bounded : (p : ℕ) → t.is_member p ≡ true → t.depth p ≤ t.height

pub data Phase : Type 0 where
  gather : Phase  -- waits for the children
  report : Phase  -- about to tell the parent
  await : Phase  -- waits for the parent's ack
  clear : Phase  -- about to reset the counter
  drain : Phase  -- waits for the reset
  acks : List ℕ → Phase  -- these children are still to be told

module _ (t : Shape) where
  abbrev pub ack : ℕ → Instr
  ack c = if t.put_acks then put t.slot 1 c else add t.slot 1 c

  abbrev pub acked_wait : ℕ → Instr
  acked_wait p =
      if length (t.children p) == 0
      then wait t.slot ne 0
      else wait t.slot eq (length (t.children p) + 1)

  abbrev pub code_drain : ℕ → List Instr
  code_drain p = wait t.slot eq 0 ∷ map ack (t.children p)

  abbrev pub code_clear : ℕ → List Instr
  code_clear p = put t.slot 0 p ∷ code_drain p

  abbrev pub code_report : ℕ → List Instr
  code_report p = add t.slot 1 (t.parent p) ∷ acked_wait p ∷ code_clear p

  -- What is left of the barrier in each phase.
  abbrev pub code : ℕ → Phase → List Instr
  code p (acks l) = map ack l
  code p drain = code_drain p
  code p clear = code_clear p
  code p await = acked_wait p ∷ code_clear p
  code p report = code_report p
  code p gather =
      wait t.slot eq (length (t.children p)) ∷ (if p == t.root then code_clear p else code_report p)

  abbrev pub start : ℕ → Phase
  start p =
      if t.is_member p then (if length (t.children p) == 0 then report else gather) else acks []

abbrev pub reported : Phase → Bool
reported gather = false
reported report = false
reported _ = true

abbrev pub cleared : Phase → Bool
cleared drain = true
cleared (acks l) = true
cleared _ = false

abbrev pub past_gather : Phase → Bool
past_gather gather = false
past_gather _ = true

abbrev pub past_await : Phase → Bool
past_await clear = true
past_await drain = true
past_await (acks l) = true
past_await _ = false

-- Whether a PE in this phase has told its child `c`.
abbrev pub has_told : Phase → ℕ → Bool
has_told (acks l) c = if elem_b c l then false else true
has_told _ c = false
