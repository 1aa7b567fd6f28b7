-- ===== src/Exchange/Delivery.antt =====
-- The puts of `shmem_internal_alltoall` and `_alltoalls`, src/collectives.c, that a barrier and the reset of a pSync
-- follow: what has arrived when a PE returns, with the puts in flight until the `quiet` of the barrier.
use mathlib.Core.Path.{subst}
use sandia_shmem.Base.{
  ℕ, ◌+◌, ◌<◌, ◌≤◌, ◌≡◌, ◌≢◌, refl, ap, sym, ◌∙◌, ◌⊎◌, inl, inr, Bool-cases, true, List, [], ◌∷◌,
  ◌++◌, some, Elem, Elem-append, Elem-left, arith, if◌then◌else◌, ℕ_discrete, Bool, length,
}
use sandia_shmem.Comm.{Instr, put, put_data, quiet, source, target, Machine, Runs, step, taken}
use sandia_shmem.Comm.Cells.{Leaves}
use sandia_shmem.Comm.Flight.{Flight, Flights, flies, completes}
use sandia_shmem.Comm.Flight.Shadow.{Flights-Shadow}
use sandia_shmem.Comm.Flight.Cells.{flight_unwritten, carried, in_flight}
use sandia_shmem.Sync.Ends.{taken-length, IsBarrier, taken-length}
use sandia_shmem.Sync.Framed.{Silent, Resets}
use sandia_shmem.Exchange.Instructions.{
  put_data-Silent, quiet-Silent, put-Resets, Elem-clear_psync, Idle, Touches-Idle, quiet-Idle,
  put_data-sets, put_data-other, put_data-source, put_data-Free, quiet-Free, put-Free,
}
use sandia_shmem.Sync.Framed.Live.{Free, somebody_moves}
use sandia_shmem.Sync.Framed.Past.{Whole, all_past}
use sandia_shmem.Exchange.{clear_psync}

-- A put from `source` to `target`.
abbrev pub block : ℕ → ℕ → ℕ → ℕ → Instr
block o f len p = put_data target o source f len p

-- The puts of every PE are blocks, followed by a barrier and the reset of its pSync.
pub record Exchanges {A : Type 0} (op : A → A → A) (is_member : ℕ → Bool) (slot sync_size : ℕ)
    (puts b : ℕ → List Instr) (m : Machine A) : Type 0 where
  pub prog :
      (p : ℕ)
      → m.prog p
        ≡ (if is_member p then puts p ++ (quiet ∷ (b p ++ clear_psync sync_size slot p)) else [])
  pub blocks :
      (p : ℕ) (i : Instr)
      → Elem i (puts p)
      → (o : ℕ) × (f : ℕ) × (len : ℕ) × (c : ℕ) × (i ≡ block o f len c)
  pub barrier :
      IsBarrier op is_member slot
        (record { prog = λ p. if is_member p then b p else []; store = m.store })

append_one : (xs ys : List Instr) → (xs ++ (quiet ∷ [])) ++ ys ≡ xs ++ (quiet ∷ ys)
append_one [] ys = refl
append_one (x ∷ xs) ys = ap (λ l. x ∷ l) (append_one xs ys)

module _ {A : Type 0} {op : A → A → A} {is_member : ℕ → Bool} {slot sync_size : ℕ}
    {puts b : ℕ → List Instr} {m : Machine A}
    (ex : Exchanges op is_member slot sync_size puts b m) where
  pub exchange-Whole :
      Whole op is_member slot (λ p. puts p ++ (quiet ∷ [])) b (clear_psync sync_size slot) m
  exchange-Whole = record {
    prog = λ p.
        ex.prog p
        ∙ sym (
            ap (λ l. if is_member p then l else [])
              (append_one (puts p) (b p ++ clear_psync sync_size slot p)));
    silent = λ p i mem. elim (Elem-append i (puts p) (quiet ∷ []) mem) [
      | inl own ↦
          let (o, f, len, c, e) = ex.blocks p i own in
          subst (Silent op slot p) (sym e) (put_data-Silent op slot p o f len c)
      | inr one ↦ elim one [
        | inl e ↦ subst (Silent op slot p) (sym e) (quiet-Silent op slot p)
        | inr nothing ↦ absurd nothing
      ]
    ];
    resets = λ p i mem.
        let (j, e) = Elem-clear_psync op sync_size slot p i mem in
        subst (Resets op slot p) (sym e) (put-Resets op slot p j);
    barrier = ex.barrier;
  }

  -- While a PE has not returned, some PE can go on; and no PE goes on for ever.
  pub ends :
      {m' : Machine A} (ran : Runs op m m')
      → ((p : ℕ)
          → is_member p ≡ true
          → m'.prog p ≢ []
          → (q : ℕ) × (m'' : Machine A) × (step op q m' ≡ some m''))
        × ((p : ℕ) → taken p ran ≤ length (m.prog p))
  ends ran = (
    somebody_moves exchange-Whole
        (λ p i mem. elim (Elem-append i (puts p) (quiet ∷ []) mem) [
          | inl own ↦
              let (o, f, len, c, e) = ex.blocks p i own in
              subst (Free op p) (sym e) (put_data-Free op p o f len c)
          | inr one ↦ elim one [
            | inl e ↦ subst (Free op p) (sym e) (quiet-Free op p)
            | inr nothing ↦ absurd nothing
          ]
        ])
        (λ p i mem.
          let (j, e) = Elem-clear_psync op sync_size slot p i mem in
          subst (Free op p) (sym e) (put-Free op p j 0 p))
        ran,
    λ p. omega (arith, taken-length p ran),
  )

  after-Idle :
      (q : ℕ) (i : Instr)
      → is_member q ≡ true
      → Elem i (b q) ⊎ Elem i (clear_psync sync_size slot q)
      → Idle op q i
  after-Idle q i mq (inl own) =
      Touches-Idle op slot q i
        (ex.barrier.alone q i (subst (λ x. Elem i (if x then b q else [])) (sym mq) own))
  after-Idle q i mq (inr last) =
      let (j, e) = Elem-clear_psync op sync_size slot q i last in
      subst (Idle op q) (sym e) (Touches-Idle op j q (put j 0 q) refl)

  -- An instruction of a PE is one of its puts or leaves the memory as it is.
  put_or_rest :
      (q : ℕ) (i : Instr)
      → Elem i (m.prog q)
      → (is_member q ≡ true) × (Elem i (puts q) ⊎ Idle op q i)
  put_or_rest q i mem = elim (Bool-cases (is_member q)) [
    | inl mq ↦
        let at : m.prog q ≡ puts q ++ (quiet ∷ (b q ++ clear_psync sync_size slot q)) =
          ex.prog q ∙ rw mq refl in
        (
          mq,
          elim (Elem-append i (puts q) (quiet ∷ (b q ++ clear_psync sync_size slot q))
              (subst (Elem i) at mem)) [
                | inl own ↦ inl own
                | inr later ↦ elim later [
                  | inl e ↦ inr (subst (Idle op q) (sym e) (quiet-Idle op q))
                  | inr rest ↦
                      inr (
                        after-Idle q i mq (Elem-append i (b q) (clear_psync sync_size slot q) rest))
                ]
              ],
        )
    | inr out ↦
        let none_left : m.prog q ≡ [] = ex.prog q ∙ rw out refl in
        absurd (subst (Elem i) none_left mem)
  ]

  source_kept :
      {fence_waits : Bool} {f : Flight A} (p x : ℕ)
      → Flights op fence_waits m f
      → f.machine.store.mem p source x ≡ m.store.mem p source x
  source_kept {fence_waits} p x r =
      flight_unwritten op fence_waits p source x
        (λ q i mem. elim (put_or_rest q i mem).1 [
          | inl own ↦
              let (o, f, len, c, e) = ex.blocks q i own in
              subst (λ y. Leaves op q y p source x) (sym e) (put_data-source op q o f len c p x)
          | inr idle ↦ idle p source x
        ])
        r

  -- A block is not among what follows the puts.
  block_early :
      (w o f len p : ℕ)
      → is_member w ≡ true
      → Elem (block o f len p) (b w) ⊎ Elem (block o f len p) (clear_psync sync_size slot w)
      → ⊥
  block_early w o f len p mw (inl own) =
      ex.barrier.alone w (block o f len p)
        (subst (λ x. Elem (block o f len p) (if x then b w else [])) (sym mw) own)
  block_early w o f len p mw (inr last) =
      let (j, e) = Elem-clear_psync op sync_size slot w (block o f len p) last in cc

  -- Nor is a `quiet`.
  quiet_early :
      (w : ℕ)
      → is_member w ≡ true
      → Elem quiet (b w) ⊎ Elem quiet (clear_psync sync_size slot w)
      → ⊥
  quiet_early w mw (inl own) =
      ex.barrier.alone w quiet (subst (λ x. Elem quiet (if x then b w else [])) (sym mw) own)
  quiet_early w mw (inr last) = let (j, e) = Elem-clear_psync op sync_size slot w quiet last in cc

  -- Once some PE is through, what is left of another one is of the barrier or after it.
  flight_past :
      {fence_waits : Bool} {f : Flight A}
      → Flights op fence_waits m f
      → (p0 : ℕ) → is_member p0 ≡ true
      → f.machine.prog p0 ≡ []
      → (w : ℕ) → is_member w ≡ true
      → (i : Instr) → Elem i (f.machine.prog w)
      → Elem i (b w) ⊎ Elem i (clear_psync sync_size slot w)
  flight_past {fence_waits} r p0 mp done w mw i left =
      let sh = Flights-Shadow op fence_waits r in
      all_past exchange-Whole sh.runs p0 mp (ap (λ y. y p0) (sym sh.prog) ∙ done) w mw i
        (subst (λ y. Elem i (y w)) sh.prog left)

  -- What an element of `target` that one put alone writes holds once some PE is through.
  pub delivered :
      {fence_waits : Bool} {f' : Flight A} (w o f len p x : ℕ)
      → is_member w ≡ true
      → Elem (block o f len p) (puts w)
      → x < len
      → ((q o' f' len' : ℕ)
          → is_member q ≡ true
          → Elem (block o' f' len' p) (puts q)
          → ((q ≡ w) × (block o' f' len' p ≡ block o f len p)) ⊎ (o + x < o') ⊎ (o' + len' ≤ o + x))
      → Flights op fence_waits m f'
      → (p0 : ℕ) → is_member p0 ≡ true
      → f'.machine.prog p0 ≡ []
      → f'.machine.store.mem p target (o + x) ≡ m.store.mem w source (f + x)
  unfolding flies completes
  delivered {fence_waits} w o f len p x mw listed lt only r p0 mp done =
      let whole : m.prog w ≡ puts w ++ (quiet ∷ (b w ++ clear_psync sync_size slot w)) =
        ex.prog w ∙ rw mw refl in
      elim (carried op fence_waits w (block o f len p) p target (o + x)
        (m.store.mem w source (f + x)) refl
        (subst (Elem (block o f len p)) (sym whole)
          (Elem-left _ (puts w) (quiet ∷ (b w ++ clear_psync sync_size slot w)) listed))
        (λ a s ra ran.
          put_data-sets op w o f len p x a.machine.store s lt ran ∙ source_kept w (f + x) ra)
        others r) [
          | inr (inr has) ↦ has
          | inl left ↦
              absurd
                (block_early w o f len p mw (flight_past r p0 mp done w mw (block o f len p) left))
          | inr (inl flying) ↦
              let to_come : Elem quiet (_) =
                in_flight op fence_waits w (block o f len p) quiet (puts w)
                  (b w ++ clear_psync sync_size slot w) whole refl no_block r flying in
              absurd (quiet_early w mw (flight_past r p0 mp done w mw quiet to_come))
        ]
    where
      no_block : ¬ Elem (block o f len p) (quiet ∷ (b w ++ clear_psync sync_size slot w))
      no_block (inl e) = cc
      no_block (inr later) =
          block_early w o f len p mw
            (Elem-append (block o f len p) (b w) (clear_psync sync_size slot w) later)

      others :
          (q : ℕ) (j : Instr)
          → Elem j (m.prog q)
          → ((q ≡ w) × (j ≡ block o f len p)) ⊎ Leaves op q j p target (o + x)
      others q j mem =
          let (mq, kind) = put_or_rest q j mem in
          elim kind [
            | inr idle ↦ inr (idle p target (o + x))
            | inl own ↦
                let (o', f', len', c, e) = ex.blocks q j own in
                elim (ℕ_discrete c p) [
                  | no other ↦ inr (
                      subst (λ y. Leaves op q y p target (o + x)) (sym e)
                        (put_data-other op q o' f' len' c p (o + x) (inl other)))
                  | yes same ↦
                      let e' : j ≡ block o' f' len' p = e ∙ ap (block o' f' len') same in
                      elim (only q o' f' len' mq (subst (λ y. Elem y (puts q)) e' own)) [
                        | inl (at_w, is_i) ↦ inl (at_w, e' ∙ is_i)
                        | inr apart ↦ inr (
                            subst (λ y. Leaves op q y p target (o + x)) (sym e')
                              (put_data-other op q o' f' len' p p (o + x) (inr apart)))
                      ]
                ]
          ]
