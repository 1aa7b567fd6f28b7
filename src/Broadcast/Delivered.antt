-- ===== src/Broadcast/Delivered.antt =====
-- What `shmem_internal_bcast_linear` of src/collectives.c delivers, in every interleaving.
use mathlib.Core.Path.{subst}
use sandia_shmem.Base.{
  ℕ, ◌+◌, ◌*◌, ◌<◌, ◌≤◌, ◌≡◌, ◌≢◌, refl, ap, sym, ◌∙◌, ◌⊎◌, inl, inr, Bool, Bool-cases, true, false,
  List, [], ◌∷◌, ◌++◌, some, map, Elem, Elem-map, Elem-map_inv, Elem-append, Elem-left, arith, ◌==◌,
  ◌||◌, ℕ_discrete, ==_iff,
}
use sandia_shmem.Comm.{
  fence, put_wait, Instr, Buffer, Store, put, wait, target, ne, compares, update, update_self,
  update-ne, exec, exec-wait, Machine, step, step-first, Runs, here, next,
}
use sandia_shmem.Comm.Cells.{Leaves, step-Elem, Runs-Elem}
use sandia_shmem.Comm.Flight.{Flight, Flights, flies, completes}
use sandia_shmem.Comm.Flight.Shadow.{Flights-Shadow}
use sandia_shmem.Comm.Flight.Cells.{flight_unwritten, carried, in_flight}
use sandia_shmem.Sync.Ends.{Calls}
use sandia_shmem.Sync.Linear.{in_set, in_set_iff}
use sandia_shmem.Broadcast.{bcast_root, bcast_other, bcast_linear}
use sandia_shmem.Broadcast.Order.{Spares, Left, late_rest, Left-Elem, Runs-Left}
use sandia_shmem.Broadcast.Instructions.{
  others_from_iff, data_sets, data_elsewhere, data-Spares, put-Spares, put-Leaves,
}
use sandia_shmem.Broadcast.Kinds.{
  Bcast, top, visited, data_for, late, acks, ordered, call_of, Plain, data_for-Plain, fence-Plain,
  acks_not_Plain, ordered_no_ack, ordered-acks, data-fence, Kind, is_data, is_ack, is_calm,
  late-Kind, other-Kind,
}

module _ {A : Type 0} (op : A → A → A) (k : Bcast) {m : Machine A} (positive : 0 < k.stride)
    (many : 2 ≤ k.size) (some_len : 0 < k.len)
    (calls : Calls (in_set k.start k.stride k.size) k.slot (call_of k) m) where
  open k use {from, len, start, stride, size, slot, complete}

  busy : ((size == 1) || (len == 0)) ≡ false
  busy = ground arith

  pub root_prog :
      in_set start stride size (top k) ≡ true
      → m.prog (top k) ≡ map (data_for k) (visited k) ++ (late k)
  unfolding bcast_linear bcast_root
  root_prog member =
      let hit : ((top k) == (top k)) ≡ true = (==_iff _ _).1 refl in
      calls.prog (top k) ∙ rw member (rw busy (rw hit refl))

  pub other_prog :
      (p : ℕ)
      → in_set start stride size p ≡ true
      → p ≢ (top k)
      → m.prog p ≡ bcast_other (top k) slot p complete
  unfolding bcast_linear
  other_prog p member other =
      let miss : ((top k) == p) ≡ false = ground arith in
      calls.prog p ∙ rw member (rw busy (rw miss refl))

  pub every-Kind : (q : ℕ) (j : Instr) → Elem j (m.prog q) → Kind op k q j
  every-Kind q j mem = elim (Bool-cases (in_set start stride size q)) [
    | inr out ↦
        let none_there : m.prog q ≡ [] = calls.prog q ∙ rw out refl in
        absurd (subst (Elem j) none_there mem)
    | inl member ↦ elim (ℕ_discrete q (top k)) [
      | no other ↦ other-Kind op k q j (subst (Elem j) (other_prog q member other) mem)
      | yes it ↦
          let at : m.prog q ≡ map (data_for k) (visited k) ++ (late k) =
            ap m.prog it ∙ root_prog (sym (ap (in_set start stride size) it) ∙ member) in
          elim (Elem-append j (map (data_for k) (visited k)) (late k) (subst (Elem j) at mem)) [
            | inl own ↦
                let (c, e, there) = Elem-map_inv (data_for k) j (visited k) own in
                is_data c there it e
            | inr rest ↦ subst (λ x. Kind op k x j) (sym it) (late-Kind op k j rest)
          ]
    ]
  ]

  -- Of a PE that waits: its counter is 0 and it has not moved, or the root is past its instruction `x`.
  abbrev Sent : Instr → ℕ → Machine A → Type 0
  Sent x p m' =
      ((m'.store.psync p slot ≡ 0) × (m'.prog p ≡ m.prog p)) ⊎ (Elem x (m'.prog (top k)) → ⊥)

  -- An ack that is about to be sent has all data and the `fence` before it.
  ack_last :
      {m' : Machine A} (x : Instr) (p : ℕ) (rest : List Instr)
      → Plain k x
      → in_set start stride size (top k) ≡ true
      → Runs op m m'
      → m'.prog (top k) ≡ put slot 1 p ∷ rest
      → Elem x rest
      → ⊥
  ack_last {m'} x p rest plain member r at mem =
      let (done, same) = Runs-Left op (top k) r in
      let left : Left (put slot 1 p ∷ rest) (ordered k ++ acks k) =
        (done, ap (λ l. done ++ l) (sym at) ∙ same ∙ root_prog member ∙ sym (ordered-acks k)) in
      acks_not_Plain k x plain (
        Left-Elem (put slot 1 p ∷ rest) (acks k) x
          (late_rest (ordered k) (acks k) rest (put slot 1 p) (ordered_no_ack k p) left) (inr mem))

  module _ (p : ℕ) (mp : in_set start stride size p ≡ true) (not_top : p ≢ (top k))
      (mt : in_set start stride size (top k) ≡ true) where
    waits : {l : List Instr} {j : Instr} → m.prog p ≡ j ∷ l → j ≡ wait slot ne 0
    unfolding bcast_other
    waits at = let e = sym at ∙ other_prog p mp not_top in cc

    step-Sent :
        {a b : Machine A} (x : Instr) (q : ℕ)
        → Plain k x
        → Runs op m a
        → step op q a ≡ some b
        → (a.store.psync p slot ≡ 0)
        → a.prog p ≡ m.prog p
        → Sent x p b
    step-Sent {a} {b} x q plain r e zero_now same =
        let (j, rest, st, at, ran, to) = step-first op q a b e in
        let first : Elem j (m.prog q) = Runs-Elem op q j r (subst (Elem j) (sym at) (inl refl)) in
        elim (ℕ_discrete q p) [
          | yes it ↦
              let is_wait : j ≡ wait slot ne 0 = waits (sym same ∙ ap a.prog (sym it) ∙ at) in
              let (on, _) =
                exec-wait op q slot ne 0 a.store st
                  (subst (λ y. exec op q y a.store ≡ some st) is_wait ran) in
              let at_zero : a.store.psync q slot ≡ 0 =
                ap (λ x. a.store.psync x slot) it ∙ zero_now in
              let f : false ≡ true = ap (λ x. compares ne x 0) (sym at_zero) ∙ on in absurd cc
          | no other ↦
              let still : b.prog p ≡ m.prog p =
                ap (λ x. x.prog p) to ∙ update-ne a.prog rest other ∙ same in
              let keep : Spares op q j p slot → Sent x p b = λ sp.
                inl (ap (λ x. x.store.psync p slot) to ∙ sp a.store st ran ∙ zero_now, still) in
              by_kind j rest still keep at to other (every-Kind q j first)
        ]
      where
        by_kind :
            (j : Instr) (rest : List Instr) {st : Store A}
            → b.prog p ≡ m.prog p
            → (Spares op q j p slot → Sent x p b)
            → a.prog q ≡ j ∷ rest
            → b ≡ record { prog = update a.prog q rest; store = st }
            → q ≢ p
            → Kind op k q j
            → Sent x p b
        by_kind j rest still keep at to other (is_data c there it e) =
            keep (subst (λ y. Spares op q y p slot) (sym e) (data-Spares op q len c p slot from))
        by_kind j rest still keep at to other (is_calm calmly) =
            keep (calmly.spares p (λ e. other (sym e)) not_top)
        by_kind j rest still keep at to other (is_ack c there it e) = elim (ℕ_discrete c p) [
          | no miss ↦
              keep (subst (λ y. Spares op q y p slot) (sym e) (put-Spares op q slot 1 c p miss))
          | yes hit ↦ inr (λ mem.
              let now : b.prog (top k) ≡ rest =
                ap (λ x. x.prog (top k)) to
                ∙ ap (update a.prog q rest) (sym it)
                ∙ update_self a.prog q rest in
              ack_last x p rest plain mt r
                (ap a.prog (sym it) ∙ at ∙ ap (λ y. y ∷ rest) (e ∙ ap (put slot 1) hit))
                (subst (Elem x) now mem))
        ]

    Runs-Sent : {m' : Machine A} (x : Instr) → Plain k x → Runs op m m' → Sent x p m'
    Runs-Sent x plain here = inl (calls.zeros p mp, refl)
    Runs-Sent {m'} x plain (next {a = a} me r e) = elim (Runs-Sent x plain r) [
      | inl (zero_now, same) ↦ step-Sent x me plain r e zero_now same
      | inr gone ↦ inr (λ mem. gone (step-Elem op me (top k) x a m' e mem))
    ]

    -- Once the PE has moved, the root is past its data and its `fence`.
    flight_gone :
        {f : Flight A} (x : Instr)
        → Plain k x
        → Flights op true m f
        → f.machine.prog p ≢ m.prog p
        → Elem x (f.machine.prog (top k))
        → ⊥
    flight_gone x plain r moved mem =
        let sh = Flights-Shadow op true r in
        elim (Runs-Sent x plain sh.runs) [
          | inl (zero_now, same) ↦ moved (ap (λ y. y p) sh.prog ∙ same)
          | inr gone ↦ gone (subst (λ y. Elem x (y (top k))) sh.prog mem)
        ]

    visited_me : Elem p (visited k)
    visited_me =
        let (at, lt, e) = (in_set_iff start stride size p positive).0 mp in
        (others_from_iff size stride start (top k) p).1 (not_top, (at, lt, e))

    source_kept :
        {f : Flight A} (x : ℕ)
        → Flights op true m f
        → f.machine.store.mem (top k) from x ≡ m.store.mem (top k) from x
    source_kept x r =
        flight_unwritten op true (top k) from x (λ q i mem. leaves q i (every-Kind q i mem)) r
      where
        leaves : (q : ℕ) (i : Instr) → Kind op k q i → Leaves op q i (top k) from x
        leaves q i (is_data c there it e) =
            let other = ((others_from_iff size stride start (top k) c).0 there).0 in
            subst (λ y. Leaves op q y (top k) from x) (sym e)
              (data_elsewhere op q len c (top k) x from from other)
        leaves q i (is_ack c there it e) =
            subst (λ y. Leaves op q y (top k) from x) (sym e)
              (put-Leaves op q slot 1 c (top k) x from)
        leaves q i (is_calm calmly) = calmly.leaves (top k) from x

    arrived :
        {f : Flight A} (x : ℕ)
        → x < len
        → Flights op true m f
        → f.machine.prog p ≢ m.prog p
        → f.machine.store.mem p target x ≡ m.store.mem (top k) from x
    unfolding flies completes
    arrived x lt r moved =
        elim (carried op true (top k) ((data_for k) p) p target x (m.store.mem (top k) from x) refl
          (subst (Elem ((data_for k) p)) (sym (root_prog mt)) (
            Elem-left ((data_for k) p) (map (data_for k) (visited k)) (late k)
              (Elem-map (data_for k) p (visited k) visited_me)))
          (λ a st ra ran.
            data_sets op (top k) len p x from a.machine.store st lt ran ∙ source_kept x ra)
          (λ q j mem. others q j (every-Kind q j mem)) r) [
            | inr (inr has) ↦ has
            | inl left ↦ absurd (flight_gone (data_for k p) (data_for-Plain k p) r moved left)
            | inr (inl flying) ↦
                let to_come =
                  in_flight op true (top k) (data_for k p) fence
                    (map (data_for k) (visited k) ++ (put_wait ∷ [])) (acks k)
                    (root_prog mt ∙ data-fence k) refl not_after r flying in
                absurd (flight_gone fence (fence-Plain k) r moved to_come)
          ]
      where
        not_after : ¬ Elem (data_for k p) (fence ∷ acks k)
        not_after (inl e) = cc
        not_after (inr later) = acks_not_Plain k (data_for k p) (data_for-Plain k p) later

        others :
            (q : ℕ) (j : Instr)
            → Kind op k q j
            → ((q ≡ (top k)) × (j ≡ (data_for k) p)) ⊎ Leaves op q j p target x
        others q j (is_data c there it e) = elim (ℕ_discrete c p) [
          | yes hit ↦ inl (it, e ∙ ap (data_for k) hit)
          | no miss ↦ inr (
              subst (λ y. Leaves op q y p target x) (sym e)
                (data_elsewhere op q len c p x from target miss))
        ]
        others q j (is_ack c there it e) =
            inr
              (subst (λ y. Leaves op q y p target x) (sym e) (put-Leaves op q slot 1 c p x target))
        others q j (is_calm calmly) = inr (calmly.leaves p target x)

-- However the calls of `shmem_internal_bcast_linear` of the PEs of the set are interleaved, and whenever data arrives that
-- no fence has waited for yet, with or without the acks to the root: a PE other than the root that is past its
-- first wait holds the root's data in its target. A fence waits for the data of its PE in flight, the set
-- has two PEs or more and a positive stride, and the counters are 0.
pub bcast_linear_lem :
    {A : Type 0} (op : A → A → A) (from : Buffer) (s d z root len slot : ℕ) (complete : Bool)
    {m : Machine A} {f : Flight A}
    → 0 < d
    → 2 ≤ z
    → root < z
    → Calls (in_set s d z) slot (λ p. bcast_linear from len root s d z slot p complete) m
    → Flights op true m f
    → (p : ℕ) → in_set s d z p ≡ true
    → p ≢ s + root * d
    → f.machine.prog p ≢ m.prog p
    → (x : ℕ) → x < len
    → f.machine.store.mem p target x ≡ m.store.mem (s + root * d) from x
bcast_linear_lem op from s d z root len slot complete positive many inside calls r p mp not_top
      moved x lt =
    arrived op
      (record {
        from = from;
        len = len;
        root = root;
        start = s;
        stride = d;
        size = z;
        slot = slot;
        complete = complete;
      })
      positive many (omega (arith, lt)) calls p mp not_top
      ((in_set_iff s d z (s + root * d) positive).1 (root, inside, omega arith)) x lt r moved
