-- ===== src/Stx/Search.antt =====
-- What the searches for an STX of src/transport_ofi.c find.
use mathlib.Core.Bool.{true≢false}
use mathlib.Core.Path.{subst}
use sandia_shmem.Base.{
  ℕ, zero, suc, ◌+◌, ◌-◌, ◌*◌, ◌/◌, ◌%◌, ◌<◌, ◌≡◌, ◌↔◌, refl, sym, ap, ◌∙◌, ◌⊎◌, inl, inr, ==_iff,
  Bool-cases, true, false, Option, none, some, ◌==◌, arith, dec_lt, none_some, some-injective,
}
use sandia_shmem.Base.Int.{ℤ}
use sandia_shmem.Stx.{
  Stx, Table, Settings, State, Allocator, round_robin, random, unused_from, search_unused,
  round_from, any_from, probe, search_shared, search_with, available,
}
use native.Mathlib.Nat.{mod-add-mod, add-mod_right, mod-lt, mod-eq_of_lt}

-- A property of 0 and of the successors below a bound.
extend :
    (P : ℕ → Type 0) (left : ℕ)
    → P 0
    → ((j : ℕ) → j < left → P (suc j))
    → (j : ℕ) → j < suc left
    → P j
extend P left first after zero l = first
extend P left first after (suc j) l = after j (omega (arith, l))

module _ (h : Table) (p : Settings) where
  open p use {allocator, stx_max, probes, rand_r, rand_max}

  unused_from_lem :
      (pool : ℕ → Stx) (left i : ℕ)
      → ((j : ℕ) → (pool j).ref_cnt ≡ 0 → (pool j).is_private ≡ false)
      → ((k : ℕ) × (unused_from h p pool left i ≡ some (some k))
          × (k < i + left)
          × ((pool k).ref_cnt ≡ 0))
        ⊎ ((unused_from h p pool left i ≡ some none)
            × ((j : ℕ) → j < left → 0 < (pool (i + j)).ref_cnt))
  unfolding unused_from
  unused_from_lem pool zero i clean = inr (refl, λ j l. absurd (omega (arith, l)))
  unused_from_lem pool (suc left) i clean = elim (Bool-cases ((pool i).ref_cnt == 0)) [
    | inl e ↦
        let zero_users = (==_iff (pool i).ref_cnt 0).0 e in
        inl (i, rw (e, clean i zero_users) refl, omega arith, zero_users)
    | inr e ↦ elim (unused_from_lem pool left (i + 1) clean) [
      | inl (k, at, l, z) ↦ inl (k, rw e at, omega (arith, l), z)
      | inr (at, all) ↦ inr (
        rw e at,
        extend (λ j. 0 < (pool (i + j)).ref_cnt) left (ground (arith, e))
            (λ j l. let more = all j l in subst (λ n. 0 < (pool n).ref_cnt) (omega arith) more),
      )
    ]
  ]

  later : (i j : ℕ) → ((i + 1) % stx_max + j) % stx_max ≡ (i + suc j) % stx_max
  later i j = mod-add-mod (i + 1) stx_max j ∙ ap (λ n. n % stx_max) (omega arith)

  round_from_lem :
      (pool : ℕ → Stx) (limit : ℤ) (left i : ℕ)
      → i < stx_max
      → ((k : ℕ) × (round_from h p pool limit left i ≡ some k)
          × (k < stx_max)
          × (available h p limit (pool k) ≡ true))
        ⊎ ((round_from h p pool limit left i ≡ none)
            × ((j : ℕ) → j < left → available h p limit (pool ((i + j) % stx_max)) ≡ false))
  unfolding round_from
  round_from_lem pool limit zero i l = inr (refl, λ j l. absurd (omega (arith, l)))
  round_from_lem pool limit (suc left) i l = elim (Bool-cases (available h p limit (pool i))) [
    | inl e ↦ inl (i, rw e refl, l, e)
    | inr e ↦
        elim (round_from_lem pool limit left ((i + 1) % stx_max)
          (mod-lt (i + 1) (omega (arith, l)))) [
            | inl (k, at, l, z) ↦ inl (k, rw e at, l, z)
            | inr (at, all) ↦ inr (
              rw e at,
              extend (λ j. available h p limit (pool ((i + j) % stx_max)) ≡ false) left
                  (subst (λ n. available h p limit (pool n) ≡ false)
                    (sym
                      (ap (λ n. n % stx_max) (omega arith) ∙ mod-eq_of_lt {n = i} {m = stx_max} l))
                    e)
                  (λ j l. subst (λ n. available h p limit (pool n) ≡ false) (later i j) (all j l)),
            )
          ]
  ]

  -- From any start, the positions after it come back to each position.
  around :
      (limit : ℤ) (pool : ℕ → Stx) (i : ℕ)
      → i < stx_max
      → ((j : ℕ) → j < stx_max → available h p limit (pool ((i + j) % stx_max)) ≡ false)
      → (k : ℕ) → k < stx_max
      → available h p limit (pool k) ≡ false
  around limit pool i l all k l' = elim (dec_lt k i) [
    | yes before ↦
        subst (λ n. available h p limit (pool n) ≡ false)
          (ap (λ n. n % stx_max) (omega (arith, before, l, l'))
            ∙ add-mod_right k stx_max
            ∙ mod-eq_of_lt {n = k} {m = stx_max} l')
          (all (k + stx_max - i) (omega (arith, before, l)))
    | no after ↦
        subst (λ n. available h p limit (pool n) ≡ false)
          (ap (λ n. n % stx_max) (omega arith) ∙ mod-eq_of_lt {n = k} {m = stx_max} l')
          (all (k - i) (omega (arith, l')))
  ]

  -- The random search of this state, if it is the one in use, ends wherever there is an STX to find.
  abbrev pub Answers : State h p → Type 0
  Answers s =
      p.allocator ≡ random
      → (limit : ℤ) → any_from h p s.pool limit stx_max 0 ≡ true
      → (r : ℕ × ℕ) × (probe h p s.pool limit probes s.rand_pool_seed ≡ some r)

  any_from_lem :
      (pool : ℕ → Stx) (limit : ℤ) (left i : ℕ)
      → any_from h p pool limit left i ≡ false
      → (j : ℕ) → j < left
      → available h p limit (pool (i + j)) ≡ false
  unfolding any_from
  any_from_lem pool limit zero i e j l = absurd (omega (arith, l))
  any_from_lem pool limit (suc left) i e j l = elim (Bool-cases (available h p limit (pool i))) [
    | inl here ↦ absurd (ground (arith, e, here))
    | inr here ↦
        extend (λ j. available h p limit (pool (i + j)) ≡ false) left
          (subst (λ n. available h p limit (pool n) ≡ false) (omega arith) here)
          (λ j l.
            subst (λ n. available h p limit (pool n) ≡ false) (omega arith)
              (any_from_lem pool limit left (i + 1) (ground (arith, e, here)) j l))
          j l
  ]

  probe_lem :
      (pool : ℕ → Stx) (limit : ℤ) (left seed k after : ℕ)
      → probe h p pool limit left seed ≡ some (k, after)
      → available h p limit (pool k) ≡ true
  unfolding probe
  probe_lem pool limit zero seed k after e = absurd (cc)
  probe_lem pool limit (suc left) seed k after e =
      let (value, next_seed) = rand_r seed in
      let drawn = value * stx_max / (rand_max + 1) in
      elim (Bool-cases (available h p limit (pool drawn))) [
        | inl here ↦
            let at : probe h p pool limit (suc left) seed ≡ some (drawn, next_seed) =
              rw here refl in
            let same : drawn ≡ k = ap (λ r. r.0) (some-injective (sym at ∙ e)) in
            subst (λ n. available h p limit (pool n) ≡ true) same here
        | inr here ↦
            let at : probe h p pool limit (suc left) seed ≡ probe h p pool limit left next_seed =
              rw here refl in
            probe_lem pool limit left next_seed k after (sym at ∙ e)
      ]

  -- A search that has found an STX: the counts and the table are as they were.
  pub record Found (s : State h p) (limit : ℤ) (result : Option (State h p × Option ℕ))
      : Type 0 where
    pub next : State h p
    pub idx : ℕ
    pub gives : result ≡ some (next, some idx)
    pub same_pool : next.pool ≡ s.pool
    pub same_kvs : next.kvs ≡ s.kvs
    pub start : next.rr_start_idx < stx_max
    pub fits : available h p limit (s.pool idx) ≡ true

  search_with_lem :
      (a : Allocator) (s : State h p) (limit : ℤ)
      → s.rr_start_idx < stx_max
      → (a ≡ random
          → (limit : ℤ) → any_from h p s.pool limit stx_max 0 ≡ true
          → (r : ℕ × ℕ) × (probe h p s.pool limit probes s.rand_pool_seed ≡ some r))
      → Found s limit (search_with h p a s limit)
        ⊎ ((search_with h p a s limit ≡ some (s, none))
            × ((k : ℕ) → k < stx_max → available h p limit (s.pool k) ≡ false))
  unfolding search_with
  search_with_lem round_robin s limit l answers =
      elim (round_from_lem s.pool limit stx_max s.rr_start_idx l) [
        | inl (k, at, inside, fits) ↦ inl (record {
          next = record s { rr_start_idx = (k + 1) % stx_max };
          idx = k;
          gives = rw (at, search_with) refl;
          same_pool = refl;
          same_kvs = refl;
          start = mod-lt (k + 1) (omega (arith, l));
          fits = fits;
        })
        | inr (at, all) ↦ inr (rw (at, search_with) refl, around limit s.pool s.rr_start_idx l all)
      ]
  search_with_lem random s limit l answers =
      elim (Bool-cases (any_from h p s.pool limit stx_max 0)) [
        | inl some_there ↦
            let ((k, seed), drawn) = answers refl limit some_there in
            inl (record {
              next = record s { rand_pool_seed = seed };
              idx = k;
              gives = rw (some_there, drawn, search_with) refl;
              same_pool = refl;
              same_kvs = refl;
              start = l;
              fits = probe_lem s.pool limit probes s.rand_pool_seed k seed drawn;
            })
        | inr none_there ↦ inr (
          rw (none_there, search_with) refl,
          λ k l'.
              subst (λ n. available h p limit (s.pool n) ≡ false) (omega arith)
                (any_from_lem s.pool limit stx_max 0 none_there k l'),
        )
      ]

  -- A search for a shared STX finds one or changes nothing, and then there is none.
  pub search_shared_lem :
      (s : State h p) (limit : ℤ)
      → s.rr_start_idx < stx_max
      → Answers s
      → Found s limit (search_shared h p s limit)
        ⊎ ((search_shared h p s limit ≡ some (s, none))
            × ((k : ℕ) → k < stx_max → available h p limit (s.pool k) ≡ false))
  unfolding search_shared
  search_shared_lem s limit l answers = search_with_lem allocator s limit l answers

  -- Where an unused STX is never private, the search for one finds it or every STX is in use.
  pub search_unused_lem :
      (s : State h p)
      → ((j : ℕ) → (s.pool j).ref_cnt ≡ 0 → (s.pool j).is_private ≡ false)
      → ((k : ℕ) × (search_unused h p s ≡ some (some k)) × (k < stx_max) × ((s.pool k).ref_cnt ≡ 0))
        ⊎ ((search_unused h p s ≡ some none) × ((j : ℕ) → j < stx_max → 0 < (s.pool j).ref_cnt))
  unfolding search_unused
  search_unused_lem s clean = elim (unused_from_lem s.pool stx_max 0 clean) [
    | inl (k, at, l, z) ↦ inl (k, at, omega (arith, l), z)
    | inr (at, all) ↦ inr (at, λ j l. subst (λ n. 0 < (s.pool n).ref_cnt) (omega arith) (all j l))
  ]

  all_any_from :
      (pool : ℕ → Stx) (limit : ℤ) (left i : ℕ)
      → ((j : ℕ) → j < left → available h p limit (pool (i + j)) ≡ false)
      → any_from h p pool limit left i ≡ false
  unfolding any_from
  all_any_from pool limit zero i all = refl
  all_any_from pool limit (suc left) i all =
      let here : available h p limit (pool i) ≡ false =
        subst (λ n. available h p limit (pool n) ≡ false) (omega arith) (all 0 (omega arith)) in
      let there = all_any_from pool limit left (i + 1) (λ j l.
        subst (λ n. available h p limit (pool n) ≡ false) (omega arith)
          (all (j + 1) (omega (arith, l)))) in
      rw (here, any_from) there

  -- From any start in the pool, the round-robin search comes to nothing exactly where the random search counts no STX
  -- to draw.
  pub round_from-any_from_iff :
      (pool : ℕ → Stx) (limit : ℤ) (i : ℕ)
      → i < stx_max
      → (round_from h p pool limit stx_max i ≡ none) ↔ (any_from h p pool limit stx_max 0 ≡ false)
  round_from-any_from_iff pool limit i l = (
    (λ e. elim (round_from_lem pool limit stx_max i l) [
      | inl (k, at, _, _) ↦ none_some e at
      | inr (_, all) ↦
          all_any_from pool limit stx_max 0
            (λ j l'. around limit pool i l all (0 + j) (omega (arith, l')))
    ]),
    (λ e. elim (round_from_lem pool limit stx_max i l) [
      | inl (k, _, inside, fits) ↦
          let never = any_from_lem pool limit stx_max 0 e k inside in
          absurd (
            true≢false
              (sym fits ∙ subst (λ n. available h p limit (pool n) ≡ false) (omega arith) never))
      | inr (at, _) ↦ at
    ]),
  )
