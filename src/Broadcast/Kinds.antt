-- ===== src/Broadcast/Kinds.antt =====
-- The call of `shmem_internal_bcast_linear`, src/collectives.c, that all PEs of a set make, and its instructions by kind.
use mathlib.Core.Path.{subst}
use sandia_shmem.Base.{
  ap, refl, ℕ, ◌+◌, ◌-◌, ◌*◌, ◌≡◌, ◌≢◌, refl, sym, inl, inr, Bool, Bool-cases, List, [], ◌∷◌, ◌++◌,
  map, Elem, Elem-map_inv, Elem-append, if◌then◌else◌,
}
use sandia_shmem.Comm.{
  Instr, Cmp, Buffer, put, add, wait, put_data, fence, put_wait, target, eq, ne,
}
use sandia_shmem.Broadcast.{others_from, bcast_other, bcast_linear}
use sandia_shmem.Broadcast.Instructions.{
  Calm, put-Calm, add-Calm, wait-Calm, fence-Calm, put_wait-Calm,
}

-- The arguments of the call.
pub record Bcast : Type 0 where
  pub from : Buffer
  pub len : ℕ
  pub root : ℕ
  pub start : ℕ
  pub stride : ℕ
  pub size : ℕ
  pub slot : ℕ
  pub complete : Bool

module _ (k : Bcast) where
  open k use {from, len, root, start, stride, size, slot, complete}

  abbrev pub top : ℕ
  top = start + root * stride

  abbrev pub visited : List ℕ
  visited = others_from size stride start top

  abbrev pub data_for : ℕ → Instr
  data_for = put_data target 0 from 0 len

  abbrev pub closing : List Instr
  closing = if complete then wait slot eq (size - 1) ∷ put slot 0 top ∷ wait slot eq 0 ∷ [] else []

  -- What the root does once its `fence` is through, and what it does after the data.
  abbrev pub acks : List Instr
  acks = map (put slot 1) visited ++ closing

  abbrev pub late : List Instr
  late = put_wait ∷ fence ∷ acks

  abbrev pub ordered : List Instr
  ordered = map data_for visited ++ (put_wait ∷ fence ∷ [])

  -- The instructions of the PE `p`.
  abbrev pub call_of : ℕ → List Instr
  call_of p = bcast_linear from len root start stride size slot p complete

  -- The instruction neither writes a counter nor waits for one.
  pub record Plain (i : Instr) : Type 0 where
    pub no_put : (j value pe : ℕ) → i ≢ put j value pe
    pub no_wait : (j : ℕ) (c : Cmp) (value : ℕ) → i ≢ wait j c value

  pub data_for-Plain : (p : ℕ) → Plain (data_for p)
  data_for-Plain p = record { no_put = λ j value pe e. cc; no_wait = λ j c value e. cc }

  pub fence-Plain : Plain fence
  fence-Plain = record { no_put = λ j value pe e. cc; no_wait = λ j c value e. cc }

  -- Nothing plain follows the `fence`.
  pub acks_not_Plain : (i : Instr) → Plain i → Elem i acks → ⊥
  acks_not_Plain i plain mem = elim (Elem-append i (map (put slot 1) visited) closing mem) [
    | inl own ↦ let (c, e, there) = Elem-map_inv (put slot 1) i visited own in plain.no_put _ _ _ e
    | inr rest ↦ elim (Bool-cases complete) [
      | inr off ↦ absurd (
          subst
            (λ b.
              Elem i
                (if b then wait slot eq (size - 1) ∷ put slot 0 top ∷ wait slot eq 0 ∷ [] else []))
            off rest)
      | inl on ↦
          elim (subst
            (λ b.
              Elem i
                (if b then wait slot eq (size - 1) ∷ put slot 0 top ∷ wait slot eq 0 ∷ [] else []))
            on rest) [
              | inl e ↦ plain.no_wait _ _ _ e
              | inr more ↦ elim more [
                | inl e ↦ plain.no_put _ _ _ e
                | inr last ↦ elim last [
                  | inl e ↦ plain.no_wait _ _ _ e
                  | inr nothing ↦ absurd nothing
                ]
              ]
            ]
    ]
  ]

  pub ordered_no_ack : (p : ℕ) (j : Instr) → Elem j ordered → j ≢ put slot 1 p
  ordered_no_ack p j mem e =
      elim (Elem-append j (map data_for visited) (put_wait ∷ fence ∷ []) mem) [
        | inl own ↦ let (c, e', there) = Elem-map_inv data_for j visited own in cc
        | inr (inl e') ↦ cc
        | inr (inr (inl e')) ↦ cc
        | inr (inr (inr nothing)) ↦ absurd nothing
      ]

  append_two :
      (xs ys : List Instr) → (xs ++ (put_wait ∷ fence ∷ [])) ++ ys ≡ xs ++ (put_wait ∷ fence ∷ ys)
  append_two [] ys = refl
  append_two (x ∷ xs) ys = ap (λ l. x ∷ l) (append_two xs ys)

  append_three :
      (xs ys : List Instr) → xs ++ (put_wait ∷ fence ∷ ys) ≡ (xs ++ (put_wait ∷ [])) ++ (fence ∷ ys)
  append_three [] ys = refl
  append_three (x ∷ xs) ys = ap (λ l. x ∷ l) (append_three xs ys)

  pub ordered-acks : ordered ++ acks ≡ map data_for visited ++ late
  ordered-acks = append_two (map data_for visited) acks

  pub data-fence :
      map data_for visited ++ late ≡ (map data_for visited ++ (put_wait ∷ [])) ++ (fence ∷ acks)
  data-fence = append_three (map data_for visited) acks

module _ {A : Type 0} (op : A → A → A) (k : Bcast) where
  open k use {from, len, slot, size, complete}

  pub data Kind (q : ℕ) (j : Instr) : Type 0 where
    is_data : (c : ℕ) → Elem c (visited k) → q ≡ (top k) → j ≡ (data_for k) c → Kind q j
    is_ack : (c : ℕ) → Elem c (visited k) → q ≡ (top k) → j ≡ put slot 1 c → Kind q j
    is_calm : Calm op q (top k) slot j → Kind q j

  calm : {q : ℕ} {i j : Instr} → Calm op q (top k) slot i → j ≡ i → Kind q j
  calm {q} c e = is_calm (subst (Calm op q (top k) slot) (sym e) c)

  closing-Kind : (j : Instr) → Elem j (closing k) → Kind (top k) j
  closing-Kind j mem = elim (Bool-cases complete) [
    | inr off ↦ absurd (
        subst
          (λ b.
            Elem j (
              if b then wait slot eq (size - 1) ∷ put slot 0 (top k) ∷ wait slot eq 0 ∷ [] else []))
          off mem)
    | inl on ↦
        elim (subst
          (λ b.
            Elem j (
              if b then wait slot eq (size - 1) ∷ put slot 0 (top k) ∷ wait slot eq 0 ∷ [] else []))
          on mem) [
            | inl e ↦ calm (wait-Calm op (top k) (top k) slot slot (size - 1) eq) e
            | inr more ↦ elim more [
              | inl e ↦ calm (put-Calm op (top k) (top k) slot 0) e
              | inr last ↦ elim last [
                | inl e ↦ calm (wait-Calm op (top k) (top k) slot slot 0 eq) e
                | inr nothing ↦ absurd nothing
              ]
            ]
          ]
  ]

  pub late-Kind : (j : Instr) → Elem j (late k) → Kind (top k) j
  late-Kind j (inl e) = calm (put_wait-Calm op (top k) (top k) slot) e
  late-Kind j (inr (inl e)) = calm (fence-Calm op (top k) (top k) slot) e
  late-Kind j (inr (inr mem)) =
      elim (Elem-append j (map (put slot 1) (visited k)) (closing k) mem) [
        | inl own ↦
            let (c, e, there) = Elem-map_inv (put slot 1) j (visited k) own in is_ack c there refl e
        | inr rest ↦ closing-Kind j rest
      ]

  pub other-Kind : (q : ℕ) (j : Instr) → Elem j (bcast_other (top k) slot q complete) → Kind q j
  unfolding bcast_other
  other-Kind q j (inl e) = calm (wait-Calm op q (top k) slot slot 0 ne) e
  other-Kind q j (inr (inl e)) = calm (put-Calm op q (top k) slot 0) e
  other-Kind q j (inr (inr (inl e))) = calm (wait-Calm op q (top k) slot slot 0 eq) e
  other-Kind q j (inr (inr (inr mem))) = elim (Bool-cases complete) [
    | inr off ↦ absurd (subst (λ b. Elem j (if b then add slot 1 (top k) ∷ [] else [])) off mem)
    | inl on ↦ elim (subst (λ b. Elem j (if b then add slot 1 (top k) ∷ [] else [])) on mem) [
      | inl e ↦ calm (add-Calm op q (top k) slot 1) e
      | inr nothing ↦ absurd nothing
    ]
  ]
