-- ===== src/Comm/Flight/Shadow.antt =====
-- The moves of Comm/Flight for src/collectives.c, taken apart, and the run in which data arrives at the call that has the same
-- programs and counters.
use mathlib.Core.Path.{subst}
use sandia_shmem.Base.{
  ℕ, zero, suc, ◌+◌, ◌-◌, ◌≡◌, refl, sym, ap, ◌∙◌, ◌⊎◌, inl, inr, Bool-cases, true, false, ◌&&◌,
  List, [], ◌∷◌, some, Option-cases, Elem, arith, none_some, some-injective, ◌+◌, ◌-◌, Bool,
}
use sandia_shmem.Comm.{
  Instr, put, add, sub_one, wait, put_data, copy, atomicv, reduce_local, fence, quiet, put_wait,
  Store, Machine, exec, exec-wait, set_psync, update, Runs, here, next, step-some, compares,
  set_psync, exec-wait,
}
use sandia_shmem.Comm.Flight.{
  Flight, Flights, ready, goes_on, arrives, flies, completes, outstanding, begin, advance, pick,
  deliver,
}

module _ {A : Type 0} (op : A → A → A) (fence_waits : Bool) where
  -- A call, with the instruction that it runs.
  pub record Advanced (me : ℕ) (f g : Flight A) : Type 0 where
    pub instr : Instr
    pub rest : List Instr
    pub at : f.machine.prog me ≡ instr ∷ rest
    pub prog : g.machine.prog ≡ update f.machine.prog me rest
    pub kind :
        ((flies instr ≡ true)
          × (g.machine.store ≡ f.machine.store)
          × (g.pending ≡ (me, instr) ∷ f.pending))
        ⊎ ((flies instr ≡ false)
            × (completes fence_waits instr ≡ true → outstanding me f.pending ≡ false)
            × (exec op me instr f.machine.store ≡ some g.machine.store)
            × (g.pending ≡ f.pending))

  begin-Advanced :
      (me : ℕ) (i : Instr) (rest : List Instr) (f g : Flight A)
      → f.machine.prog me ≡ i ∷ rest
      → begin op fence_waits me i rest f ≡ some g
      → Advanced me f g
  unfolding begin
  begin-Advanced me i rest f g at e = elim (Bool-cases (flies i)) [
    | inl flew ↦
        let runs : begin op fence_waits me i rest f
            ≡ some (record {
              machine = record { prog = update f.machine.prog me rest; store = f.machine.store };
              pending = (me, i) ∷ f.pending;
            }) =
          rw (flew, begin) refl in
        subst (Advanced me f) (some-injective (sym runs ∙ e))
          (record { instr = i; rest = rest; at = at; prog = refl; kind = inl (flew, refl, refl) })
    | inr stays ↦ elim (Bool-cases (completes fence_waits i && outstanding me f.pending)) [
      | inl blocked ↦ none_some (rw (stays, blocked, begin) refl) e
      | inr free ↦ elim (Option-cases (exec op me i f.machine.store)) [
        | inl stuck ↦ none_some (rw (stays, free, stuck, begin) refl) e
        | inr (s, ran) ↦
            let runs : begin op fence_waits me i rest f
                ≡ some (record {
                  machine = record { prog = update f.machine.prog me rest; store = s };
                  pending = f.pending;
                }) =
              rw (stays, free, ran, begin) refl in
            subst (Advanced me f) (some-injective (sym runs ∙ e)) (record {
              instr = i;
              rest = rest;
              at = at;
              prog = refl;
              kind = inr (stays, (λ c. ground (arith, free, c)), ran, refl);
            })
      ]
    ]
  ]

  by_prog :
      (me : ℕ) (f g : Flight A) (l : List Instr)
      → f.machine.prog me ≡ l
      → advance op fence_waits me f ≡ some g
      → Advanced me f g
  unfolding advance
  by_prog me f g [] at e = none_some (rw (at, advance) refl) e
  by_prog me f g (i ∷ rest) at e =
      let runs : advance op fence_waits me f ≡ begin op fence_waits me i rest f =
        rw (at, advance) refl in
      begin-Advanced me i rest f g at (sym runs ∙ e)

  pub advance-Advanced :
      (me : ℕ) (f g : Flight A) → advance op fence_waits me f ≡ some g → Advanced me f g
  advance-Advanced me f g e = by_prog me f g (f.machine.prog me) refl e

  -- An arrival, with the entry that arrives.
  pub record Delivered (f g : Flight A) : Type 0 where
    pub owner : ℕ
    pub instr : Instr
    pub flying : Elem (owner, instr) f.pending
    pub left : (x : ℕ × Instr) → Elem x g.pending → Elem x f.pending
    pub others : (x : ℕ × Instr) → Elem x f.pending → (x ≡ (owner, instr)) ⊎ Elem x g.pending
    pub prog : g.machine.prog ≡ f.machine.prog
    pub ran : exec op owner instr f.machine.store ≡ some g.machine.store

  pick_lem :
      (k : ℕ) (l rest : List (ℕ × Instr)) (c : ℕ × Instr)
      → pick k l ≡ some (c, rest)
      → Elem c l
        × ((x : ℕ × Instr) → Elem x rest → Elem x l)
        × ((x : ℕ × Instr) → Elem x l → (x ≡ c) ⊎ Elem x rest)
  unfolding pick
  pick_lem k [] rest c e = absurd cc
  pick_lem zero (p ∷ l) rest c e =
      let pair = some-injective e in
      let first : p ≡ c = ap (λ r. r.0) pair in
      let same : l ≡ rest = ap (λ r. r.1) pair in
      (
        inl (sym first),
        (λ x m. inr (subst (Elem x) (sym same) m)),
        (λ x m. elim m [ inl d ↦ inl (d ∙ first) | inr later ↦ inr (subst (Elem x) same later) ]),
      )
  pick_lem (suc k) (p ∷ l) rest c e = elim (Option-cases (pick k l)) [
    | inl nothing ↦ none_some (rw (nothing, pick) refl) e
    | inr ((chosen, others), found) ↦
        let runs : pick (suc k) (p ∷ l) ≡ some (chosen, p ∷ others) = rw (found, pick) refl in
        let pair = some-injective (sym runs ∙ e) in
        let first : chosen ≡ c = ap (λ r. r.0) pair in
        let same : p ∷ others ≡ rest = ap (λ r. r.1) pair in
        let (there, back, forth) = pick_lem k l others chosen found in
        (
          inr (subst (λ y. Elem y l) first there),
          (λ x m. elim (subst (Elem x) (sym same) m) [
            | inl d ↦ inl d
            | inr later ↦ inr (back x later)
          ]),
          (λ x m. elim m [
            | inl d ↦ inr (subst (Elem x) same (inl d))
            | inr later ↦ elim (forth x later) [
              | inl d ↦ inl (d ∙ first)
              | inr other ↦ inr (subst (Elem x) same (inr other))
            ]
          ]),
        )
  ]

  pub deliver-Delivered : (k : ℕ) (f g : Flight A) → deliver op k f ≡ some g → Delivered f g
  unfolding deliver
  deliver-Delivered k f g e = elim (Option-cases (pick k f.pending)) [
    | inl nothing ↦ none_some (rw (nothing, deliver) refl) e
    | inr ((parcel, rest), found) ↦
        elim (Option-cases (exec op parcel.0 parcel.1 f.machine.store)) [
          | inl stuck ↦ none_some (rw (found, stuck, deliver) refl) e
          | inr (s, ran) ↦
              let runs : deliver op k f
                  ≡ some (record {
                    machine = record { prog = f.machine.prog; store = s };
                    pending = rest;
                  }) =
                rw (found, ran, deliver) refl in
              let (there, back, forth) = pick_lem k f.pending rest parcel found in
              subst (Delivered f) (some-injective (sym runs ∙ e)) (record {
                owner = parcel.0;
                instr = parcel.1;
                flying = there;
                left = back;
                others = forth;
                prog = refl;
                ran = ran;
              })
        ]
  ]

  -- What an instruction does to the counters does not depend on the memory.
  exec-psync :
      (me : ℕ) (i : Instr) (s t s' : Store A)
      → s.psync ≡ t.psync
      → exec op me i s ≡ some s'
      → (t' : Store A) × (exec op me i t ≡ some t') × (s'.psync ≡ t'.psync)
  unfolding exec
  exec-psync me (put slot value pe) s t s' same e = (
    _,
    refl,
    ap (λ x. x.psync) (sym (some-injective e)) ∙ ap (λ y. set_psync y pe slot value) same,
  )
  exec-psync me (add slot value pe) s t s' same e = (
    _,
    refl,
    ap (λ x. x.psync) (sym (some-injective e))
        ∙ ap (λ y. set_psync y pe slot (y pe slot + value)) same,
  )
  exec-psync me (sub_one slot pe) s t s' same e = (
    _,
    refl,
    ap (λ x. x.psync) (sym (some-injective e)) ∙ ap (λ y. set_psync y pe slot (y pe slot - 1)) same,
  )
  exec-psync me (wait slot c value) s t s' same e =
      let (on, kept) = exec-wait op me slot c value s s' e in
      let on' : compares c (t.psync me slot) value ≡ true =
        ap (λ y. compares c (y me slot) value) (sym same) ∙ on in
      (t, rw on' refl, ap (λ x. x.psync) kept ∙ same)
  exec-psync me (put_data to to_off from from_off len pe) s t s' same e =
      (_, refl, ap (λ x. x.psync) (sym (some-injective e)) ∙ same)
  exec-psync me (copy to to_off from from_off len) s t s' same e =
      (_, refl, ap (λ x. x.psync) (sym (some-injective e)) ∙ same)
  exec-psync me (atomicv to from len pe) s t s' same e =
      (_, refl, ap (λ x. x.psync) (sym (some-injective e)) ∙ same)
  exec-psync me (reduce_local in_off in_buf out_off out_buf len) s t s' same e =
      (_, refl, ap (λ x. x.psync) (sym (some-injective e)) ∙ same)
  exec-psync me fence s t s' same e = (t, refl, ap (λ x. x.psync) (sym (some-injective e)) ∙ same)
  exec-psync me quiet s t s' same e = (t, refl, ap (λ x. x.psync) (sym (some-injective e)) ∙ same)
  exec-psync me put_wait s t s' same e =
      (t, refl, ap (λ x. x.psync) (sym (some-injective e)) ∙ same)

  -- Data in flight never waits, and leaves the counters.
  flies-psync :
      (me : ℕ) (i : Instr) (s : Store A)
      → flies i ≡ true
      → (s' : Store A) × (exec op me i s ≡ some s') × (s'.psync ≡ s.psync)
  unfolding exec flies
  flies-psync me (put_data to to_off from from_off len pe) s e = (_, refl, refl)
  flies-psync me (atomicv to from len pe) s e = (_, refl, refl)
  flies-psync me (put slot value pe) s e = absurd cc
  flies-psync me (add slot value pe) s e = absurd cc
  flies-psync me (sub_one slot pe) s e = absurd cc
  flies-psync me (wait slot c value) s e = absurd cc
  flies-psync me (copy to to_off from from_off len) s e = absurd cc
  flies-psync me (reduce_local in_off in_buf out_off out_buf len) s e = absurd cc
  flies-psync me fence s e = absurd cc
  flies-psync me quiet s e = absurd cc
  flies-psync me put_wait s e = absurd cc

  -- The run in which data arrives at the call.
  pub record Shadow (m : Machine A) (f : Flight A) : Type 0 where
    pub machine : Machine A
    pub runs : Runs op m machine
    pub prog : f.machine.prog ≡ machine.prog
    pub psync : f.machine.store.psync ≡ machine.store.psync

  also_runs :
      {m : Machine A} {f g : Flight A} (me : ℕ) (sh : Shadow m f) (v : Advanced me f g)
      (t : Store A)
      → exec op me v.instr sh.machine.store ≡ some t
      → g.machine.store.psync ≡ t.psync
      → Shadow m g
  also_runs me sh v t ran same = record {
    machine = record { prog = update sh.machine.prog me v.rest; store = t };
    runs = next me sh.runs (step-some op me sh.machine (ap (λ y. y me) (sym sh.prog) ∙ v.at) ran);
    prog = v.prog ∙ ap (λ y. update y me v.rest) sh.prog;
    psync = same;
  }

  -- All that is in flight is data.
  pending-flies :
      {m : Machine A} {f : Flight A} (q : ℕ) (i : Instr)
      → Flights op fence_waits m f
      → Elem (q, i) f.pending
      → flies i ≡ true
  pending-flies q i ready mem = absurd mem
  pending-flies {f = g} q i (goes_on {f = f} me r e) mem =
      let v = advance-Advanced me f g e in
      elim v.kind [
        | inl (flew, _, more) ↦ elim (subst (Elem (q, i)) more mem) [
          | inl new ↦ ap (λ y. flies y.1) new ∙ flew
          | inr old ↦ pending-flies q i r old
        ]
        | inr (_, _, _, same) ↦ pending-flies q i r (subst (Elem (q, i)) same mem)
      ]
  pending-flies {f = g} q i (arrives {f = f} k r e) mem =
      pending-flies q i r ((deliver-Delivered k f g e).left (q, i) mem)

  pub Flights-Shadow : {m : Machine A} {f : Flight A} → Flights op fence_waits m f → Shadow m f
  Flights-Shadow {m = m} ready = record { machine = m; runs = here; prog = refl; psync = refl }
  Flights-Shadow {f = g} (goes_on {f = f} me r e) =
      let sh = Flights-Shadow r in
      let v = advance-Advanced me f g e in
      elim v.kind [
        | inl (flew, kept, _) ↦
            let (t, ran, same) = flies-psync me v.instr sh.machine.store flew in
            also_runs me sh v t ran (ap (λ y. y.psync) kept ∙ sh.psync ∙ sym same)
        | inr (_, _, acts, _) ↦
            let (t, ran, same) =
              exec-psync me v.instr f.machine.store sh.machine.store g.machine.store sh.psync
                acts in
            also_runs me sh v t ran same
      ]
  Flights-Shadow {f = g} (arrives {f = f} k r e) =
      let sh = Flights-Shadow r in
      let v = deliver-Delivered k f g e in
      let (t, ran, same) =
        flies-psync v.owner v.instr f.machine.store (pending-flies v.owner v.instr r v.flying) in
      let is_t : g.machine.store ≡ t = some-injective (sym v.ran ∙ ran) in
      record {
        machine = sh.machine;
        runs = sh.runs;
        prog = v.prog ∙ sh.prog;
        psync = ap (λ y. y.psync) is_t ∙ same ∙ sh.psync;
      }
