-- ===== src/Comm/Flight/Cells.antt =====
-- A cell of memory that one put of one PE writes, with data in flight; for the collectives of src/collectives.c that
-- move data.
use mathlib.Core.Path.{subst}
use sandia_shmem.Base.{
  ℕ, ◌≡◌, ◌≢◌, refl, sym, ap, ◌∙◌, ◌⊎◌, inl, inr, true, false, List, [], ◌∷◌, ◌++◌, some, Elem,
  Elem-right, ℕ_discrete, ==_iff, ◌==◌, Bool-cases,
}
use sandia_shmem.Comm.{
  put, add, sub_one, wait, put_data, copy, atomicv, reduce_local, fence, quiet, put_wait, Instr,
  Buffer, Store, Machine, exec, update_self, update-ne, put_data, atomicv, put, add,
}
use mathlib.Core.Bool.{true≢false, Bool}
use sandia_shmem.Broadcast.Order.{Left, Left-Elem, Runs-Left}
use sandia_shmem.Comm.Cells.{Leaves, Runs-Elem}
use sandia_shmem.Comm.Flight.{
  Flight, Flights, ready, goes_on, arrives, flies, completes, outstanding,
}
use sandia_shmem.Comm.Flight.Shadow.{Advanced, advance-Advanced, deliver-Delivered, Flights-Shadow}

outstanding-Elem :
    (w : ℕ) (i : Instr) (l : List (ℕ × Instr)) → Elem (w, i) l → outstanding w l ≡ true
unfolding outstanding
outstanding-Elem w i [] m = absurd m
outstanding-Elem w i (p ∷ l) (inl e) =
    let it : (p.0 == w) ≡ true = (==_iff p.0 w).1 (ap (λ x. x.0) (sym e)) in rw it refl
outstanding-Elem w i (p ∷ l) (inr m) =
    let it = outstanding-Elem w i l m in
    elim (Bool-cases (p.0 == w)) [ inl e ↦ rw e refl | inr e ↦ rw e it ]

completes_stays :
    (fence_waits : Bool) (g : Instr) → completes fence_waits g ≡ true → flies g ≡ false
unfolding completes flies
completes_stays fence_waits (put_data to to_off from from_off len pe) e = absurd cc
completes_stays fence_waits (atomicv to from len pe) e = absurd cc
completes_stays fence_waits (put slot value pe) e = refl
completes_stays fence_waits (add slot value pe) e = refl
completes_stays fence_waits (sub_one slot pe) e = refl
completes_stays fence_waits (wait slot c value) e = refl
completes_stays fence_waits (copy to to_off from from_off len) e = refl
completes_stays fence_waits (reduce_local in_off in_buf out_off out_buf len) e = refl
completes_stays fence_waits fence e = refl
completes_stays fence_waits quiet e = refl
completes_stays fence_waits put_wait e = refl

module _ {A : Type 0} (op : A → A → A) (fence_waits : Bool) where
  Flights-Elem :
      {m : Machine A} {f : Flight A} (q : ℕ) (i : Instr)
      → Flights op fence_waits m f
      → Elem i (f.machine.prog q)
      → Elem i (m.prog q)
  Flights-Elem q i r mem =
      let sh = Flights-Shadow op fence_waits r in
      Runs-Elem op q i sh.runs (subst (λ y. Elem i (y q)) sh.prog mem)

  -- The first instruction of a PE is one of its program.
  first-Elem :
      {m : Machine A} {f g : Flight A} (me : ℕ)
      → Flights op fence_waits m f
      → (v : Advanced op fence_waits me f g) → Elem v.instr (m.prog me)
  first-Elem me r v = Flights-Elem me v.instr r (subst (Elem v.instr) (sym v.at) (inl refl))

  pending-Elem :
      {m : Machine A} {f : Flight A} (q : ℕ) (i : Instr)
      → Flights op fence_waits m f
      → Elem (q, i) f.pending
      → Elem i (m.prog q)
  pending-Elem q i ready mem = absurd mem
  pending-Elem {m} {f = g} q i (goes_on {f = f} me r e) mem =
      let v = advance-Advanced op fence_waits me f g e in
      elim v.kind [
        | inl (_, _, more) ↦ elim (subst (Elem (q, i)) more mem) [
          | inl new ↦
              let at_me = ap (λ y. y.0) new in
              let it = ap (λ y. y.1) new in
              subst (λ y. Elem i (m.prog y)) (sym at_me)
                (subst (λ y. Elem y (m.prog me)) (sym it) (first-Elem me r v))
          | inr old ↦ pending-Elem q i r old
        ]
        | inr (_, _, _, same) ↦ pending-Elem q i r (subst (Elem (q, i)) same mem)
      ]
  pending-Elem {f = g} q i (arrives {f = f} k r e) mem =
      pending-Elem q i r ((deliver-Delivered op fence_waits k f g e).left (q, i) mem)

  -- The list of a PE after a call.
  own_rest :
      {f g : Flight A} (me : ℕ) (v : Advanced op fence_waits me f g) → g.machine.prog me ≡ v.rest
  own_rest {f = f} me v = ap (λ y. y me) v.prog ∙ update_self f.machine.prog me v.rest

  other_rest :
      {f g : Flight A} (me q : ℕ) (v : Advanced op fence_waits me f g)
      → me ≢ q
      → g.machine.prog q ≡ f.machine.prog q
  other_rest {f = f} me q v other = ap (λ y. y q) v.prog ∙ update-ne f.machine.prog v.rest other

  pub flight_unwritten :
      {m : Machine A} {f : Flight A} (p : ℕ) (buf : Buffer) (x : ℕ)
      → ((q : ℕ) (i : Instr) → Elem i (m.prog q) → Leaves op q i p buf x)
      → Flights op fence_waits m f
      → f.machine.store.mem p buf x ≡ m.store.mem p buf x
  flight_unwritten p buf x leaves ready = refl
  flight_unwritten {f = g} p buf x leaves (goes_on {f = f} me r e) =
      let v = advance-Advanced op fence_waits me f g e in
      let before = flight_unwritten p buf x leaves r in
      elim v.kind [
        | inl (_, kept, _) ↦ ap (λ y. y.mem p buf x) kept ∙ before
        | inr (_, _, ran, _) ↦
            leaves me v.instr (first-Elem me r v) f.machine.store g.machine.store ran ∙ before
      ]
  flight_unwritten {f = g} p buf x leaves (arrives {f = f} k r e) =
      let v = deliver-Delivered op fence_waits k f g e in
      leaves v.owner v.instr (pending-Elem v.owner v.instr r v.flying) f.machine.store
        g.machine.store v.ran
      ∙ flight_unwritten p buf x leaves r

  -- A cell that only the put `i` of PE `w` writes, with the value `v`, holds `v` once the put has been called and has
  -- arrived.
  pub carried :
      {m : Machine A} {f : Flight A} (w : ℕ) (i : Instr) (p : ℕ) (buf : Buffer) (x : ℕ) (value : A)
      → flies i ≡ true
      → Elem i (m.prog w)
      → ((a : Flight A) (s : Store A)
          → Flights op fence_waits m a
          → exec op w i a.machine.store ≡ some s
          → s.mem p buf x ≡ value)
      → ((q : ℕ) (j : Instr) → Elem j (m.prog q) → ((q ≡ w) × (j ≡ i)) ⊎ Leaves op q j p buf x)
      → Flights op fence_waits m f
      → Elem i (f.machine.prog w) ⊎ (Elem (w, i) f.pending ⊎ (f.machine.store.mem p buf x ≡ value))
  carried w i p buf x value flew listed sets others ready = inl listed
  carried {m} {f = g} w i p buf x value flew listed sets others (goes_on {f = f} me r e) =
      let v = advance-Advanced op fence_waits me f g e in
      elim (carried w i p buf x value flew listed sets others r) [
        | inl left ↦ elim (ℕ_discrete me w) [
          | no other ↦ inl (subst (Elem i) (sym (other_rest me w v other)) left)
          | yes same ↦ elim (subst (Elem i) (ap f.machine.prog (sym same) ∙ v.at) left) [
            | inr later ↦
                inl (subst (Elem i) (sym (ap g.machine.prog (sym same) ∙ own_rest me v)) later)
            | inl is_first ↦ elim v.kind [
              | inl (_, _, more) ↦ inr (
                  inl (
                    subst (Elem (w, i)) (sym more)
                      (inl (ap (λ y. (y, i)) (sym same) ∙ ap (λ y. (me, y)) is_first))))
              | inr (stays, _, _, _) ↦ absurd (true≢false (sym flew ∙ ap flies is_first ∙ stays))
            ]
          ]
        ]
        | inr (inl flying) ↦ elim v.kind [
          | inl (_, _, more) ↦ inr (inl (subst (Elem (w, i)) (sym more) (inr flying)))
          | inr (_, _, _, same) ↦ inr (inl (subst (Elem (w, i)) (sym same) flying))
        ]
        | inr (inr has) ↦ elim v.kind [
          | inl (_, kept, _) ↦ inr (inr (ap (λ y. y.mem p buf x) kept ∙ has))
          | inr (stays, _, ran, _) ↦ elim (others me v.instr (first-Elem me r v)) [
            | inl (_, is_i) ↦ absurd (true≢false (sym flew ∙ ap flies (sym is_i) ∙ stays))
            | inr leaves ↦ inr (inr (leaves f.machine.store g.machine.store ran ∙ has))
          ]
        ]
      ]
  carried {m} {f = g} w i p buf x value flew listed sets others (arrives {f = f} k r e) =
      let v = deliver-Delivered op fence_waits k f g e in
      elim (others v.owner v.instr (pending-Elem v.owner v.instr r v.flying)) [
        | inl (at_w, is_i) ↦ inr (
            inr (
              sets f g.machine.store r (
                subst (λ y. exec op y i f.machine.store ≡ some g.machine.store) at_w
                  (subst (λ y. exec op v.owner y f.machine.store ≡ some g.machine.store) is_i
                    v.ran))))
        | inr leaves ↦ elim (carried w i p buf x value flew listed sets others r) [
          | inl left ↦ inl (subst (λ y. Elem i (y w)) (sym v.prog) left)
          | inr (inl flying) ↦ elim (v.others (w, i) flying) [
            | inr still ↦ inr (inl still)
            | inl it ↦
                let at_w : v.owner ≡ w = ap (λ y. y.0) (sym it) in
                let is_i : v.instr ≡ i = ap (λ y. y.1) (sym it) in
                inr (
                  inr (
                    sets f g.machine.store r (
                      subst (λ y. exec op y i f.machine.store ≡ some g.machine.store) at_w
                        (subst (λ y. exec op v.owner y f.machine.store ≡ some g.machine.store) is_i
                          v.ran))))
          ]
          | inr (inr has) ↦ inr (inr (leaves f.machine.store g.machine.store v.ran ∙ has))
        ]
      ]

  quiet_follows :
      (early late rest : List Instr) (i g : Instr)
      → ¬ Elem i (g ∷ late)
      → Left (i ∷ rest) (early ++ (g ∷ late))
      → Elem g rest
  quiet_follows [] late rest i g apart left =
      absurd (apart (Left-Elem (i ∷ rest) (g ∷ late) i left (inl refl)))
  quiet_follows (e ∷ early) late rest i g apart ([], same) =
      let c : rest ≡ early ++ (g ∷ late) = cc in
      subst (Elem g) (sym c) (Elem-right g early (g ∷ late) (inl refl))
  quiet_follows (e ∷ early) late rest i g apart (d ∷ done, same) =
      let c : done ++ (i ∷ rest) ≡ early ++ (g ∷ late) = cc in
      quiet_follows early late rest i g apart (done, c)

  -- A call of another instruction leaves `g` to come.
  to_come :
      {f h : Flight A} (me w : ℕ) (g : Instr) (v : Advanced op fence_waits me f h)
      → (me ≡ w → g ≢ v.instr)
      → Elem g (f.machine.prog w)
      → Elem g (h.machine.prog w)
  to_come {f} {h} me w g v other left = elim (ℕ_discrete me w) [
    | no away ↦ subst (Elem g) (sym (other_rest me w v away)) left
    | yes same ↦ elim (subst (Elem g) (ap f.machine.prog (sym same) ∙ v.at) left) [
      | inr later ↦ subst (Elem g) (sym (ap h.machine.prog (sym same) ∙ own_rest me v)) later
      | inl is_first ↦ absurd (other same is_first)
    ]
  ]

  -- What a PE has left when it calls its next instruction.
  called_Left :
      {m : Machine A} {f h : Flight A} (me : ℕ)
      → Flights op fence_waits m f
      → (v : Advanced op fence_waits me f h) → Left (v.instr ∷ v.rest) (m.prog me)
  called_Left {m} me r v =
      let sh = Flights-Shadow op fence_waits r in
      subst (λ l. Left l (m.prog me)) (ap (λ y. y me) (sym sh.prog) ∙ v.at)
        (Runs-Left op me sh.runs)

  -- While an instruction of a PE that comes before its `quiet` or `fence` is in flight, the PE has still to come to that.
  pub in_flight :
      {m : Machine A} {f : Flight A} (w : ℕ) (i g : Instr) (early late : List Instr)
      → m.prog w ≡ early ++ (g ∷ late)
      → completes fence_waits g ≡ true
      → ¬ Elem i (g ∷ late)
      → Flights op fence_waits m f
      → Elem (w, i) f.pending
      → Elem g (f.machine.prog w)
  in_flight w i g early late whole completing apart ready mem = absurd mem
  in_flight {m = m} {f = h} w i g early late whole completing apart (goes_on {f = f} me r e) mem =
      let v = advance-Advanced op fence_waits me f h e in
      let old : Elem (w, i) f.pending → Elem g (f.machine.prog w) =
        in_flight w i g early late whole completing apart r in
      elim v.kind [
        | inl (flew, _, more) ↦ elim (subst (Elem (w, i)) more mem) [
          | inl new ↦
              let same : me ≡ w = ap (λ y. y.0) (sym new) in
              let is_i : v.instr ≡ i = ap (λ y. y.1) (sym new) in
              let follows : Elem g v.rest = quiet_follows early late v.rest i g apart (
                subst (λ l. Left l (early ++ (g ∷ late))) (ap (λ y. y ∷ v.rest) is_i)
                  (subst (Left (v.instr ∷ v.rest)) (ap m.prog same ∙ whole)
                    (called_Left me r v))) in
              subst (Elem g) (sym (ap h.machine.prog (sym same) ∙ own_rest me v)) follows
          | inr before ↦
              to_come me w g v
                (λ same is_first.
                  true≢false
                    (sym flew ∙ ap flies (sym is_first) ∙ completes_stays fence_waits g completing))
                (old before)
        ]
        | inr (_, calm, _, same) ↦
            let flying = subst (Elem (w, i)) same mem in
            to_come me w g v
              (λ same is_first.
                let clear = calm (ap (completes fence_waits) (sym is_first) ∙ completing) in
                true≢false (
                  sym (outstanding-Elem w i f.pending flying)
                  ∙ ap (λ y. outstanding y f.pending) (sym same)
                  ∙ clear))
              (old flying)
      ]
  in_flight {f = h} w i g early late whole completing apart (arrives {f = f} k r e) mem =
      let v = deliver-Delivered op fence_waits k f h e in
      subst (λ y. Elem g (y w)) (sym v.prog)
        (in_flight w i g early late whole completing apart r (v.left (w, i) mem))
