-- ===== src/Stx/Allocate.antt =====
-- `shmem_transport_ofi_stx_allocate` of src/transport_ofi.c: the STX that a context gets.
use mathlib.Core.Bool.{true≢false}
use mathlib.Core.Path.{subst}
use sandia_shmem.Base.{
  ℕ, ◌<◌, ◌≡◌, refl, sym, ap, ◌∙◌, ◌⊎◌, inl, inr, Bool-cases, Bool, true, false, List, [], ◌∷◌,
  Option, none, some, ◌==◌, arith, Elem, some-injective,
}
use sandia_shmem.Base.Int.{ℤ, negsuc}
use sandia_shmem.Stx.{
  Stx, Table, Settings, State, Ctx, is_private_ctx, add_user, allocate, available, assign,
  if_missing, unused_of, search_shared, search_unused, private_ctx, first_private, make_private,
}
use sandia_shmem.Stx.Leases.{Leased, users, users-Placed, users-Elem}
use sandia_shmem.Stx.Search.{Found, Answers, search_shared_lem, search_unused_lem}
use sandia_shmem.Stx.Users.{on, Leased-same, add_user-Leased, make_private-Leased}

module _ (h : Table) (p : Settings) where
  open h use {find}
  open p use {stx_max, threshold}

  -- No context is there, or one that is not private, as the default context is.
  abbrev pub HasShared : List (Ctx h p) → Type 0
  HasShared cs = (cs ≡ []) ⊎ ((c : Ctx h p) × Elem c cs × (is_private_ctx h p c.option ≡ false))

  -- A context of the thread on an STX, added to those that were there.
  pub record Gets (cs : List (Ctx h p)) (tid : ℕ) (result : Option (State h p × Ctx h p))
      : Type 0 where
    pub next : State h p
    pub ctx : Ctx h p
    pub gives : result ≡ some (next, ctx)
    pub thread : ctx.tid ≡ tid
    pub leased : Leased h p next (ctx ∷ cs)

  available_lem :
      (limit : ℤ) (stx : Stx)
      → available h p limit stx ≡ true
      → (0 < stx.ref_cnt) × (stx.is_private ≡ false)
  available_lem limit stx e = elim (Bool-cases stx.is_private) [
    | inl private ↦ absurd (ground (arith, e, private))
    | inr shared ↦ (ground (arith, e), shared)
  ]

  -- An STX in use is one of the pool.
  busy-lt :
      (s : State h p) (cs : List (Ctx h p)) (i : ℕ)
      → Leased h p s cs
      → 0 < (s.pool i).ref_cnt
      → i < stx_max
  busy-lt s cs i l busy =
      let (c, m, at) = users-Placed h p s cs i l.placed (omega (arith, busy, l.counted i)) in
      let w = l.placed c m in omega (arith, w.in_pool, some-injective (sym w.holds ∙ at))

  found_unused :
      (s : State h p) (r : Option ℕ) → search_unused h p s ≡ some r → unused_of h p s ≡ some (s, r)
  found_unused s r at = rw (at, unused_of) refl

  assign-Gets :
      (s : State h p) (cs : List (Ctx h p)) (tid : ℕ) (option : Bool) (limit : ℤ)
      (result : Option (State h p × Option ℕ))
      → Leased h p s cs
      → is_private_ctx h p option ≡ false
      → Found h p s limit result
      → Gets cs tid (assign h p result tid option)
  assign-Gets s cs tid option limit result l shared f =
      let t = Leased-same h p s f.next cs f.same_pool f.same_kvs f.start l in
      let fit : (0 < (s.pool f.idx).ref_cnt) × ((s.pool f.idx).is_private ≡ false) =
        available_lem limit (s.pool f.idx) f.fits in
      let kind = ap (λ g. (g f.idx).is_private) f.same_pool ∙ fit.1 ∙ sym shared in
      record {
        next = add_user h p f.next f.idx;
        ctx = on h p f.idx tid option;
        gives = ap (λ r. assign h p r tid option) f.gives;
        thread = refl;
        leased =
            add_user-Leased h p f.next cs f.idx tid option t (busy-lt s cs f.idx l fit.0) kind
              (λ q. absurd (true≢false (sym q ∙ shared)));
      }

  no_users : users h p [] 0 ≡ 0
  unfolding users
  no_users = refl

  -- With every STX in use, one of them is shared.
  last_resort :
      (s : State h p) (cs : List (Ctx h p))
      → Leased h p s cs
      → HasShared cs
      → Answers h p s
      → ((j : ℕ) → j < stx_max → 0 < (s.pool j).ref_cnt)
      → Found h p s (negsuc 0) (search_shared h p s (negsuc 0))
  last_resort s cs l live answers busy =
      elim (search_shared_lem h p s (negsuc 0) l.in_range answers) [
        | inl found ↦ found
        | inr (_, all) ↦ elim live [
          | inl e ↦
              let unused : users h p cs 0 ≡ 0 = rw e (no_users) in
              absurd (omega (arith, busy 0 (omega (arith, l.in_range)), l.counted 0, unused))
          | inr (c, m, shared) ↦
              let w = l.placed c m in
              let more = users-Elem h p cs c w.idx m w.holds in
              absurd (ground (arith, all w.idx w.in_pool, more, l.counted w.idx, w.kind, shared))
        ]
      ]

  clean :
      (s : State h p) (cs : List (Ctx h p))
      → Leased h p s cs
      → (j : ℕ) → (s.pool j).ref_cnt ≡ 0
      → (s.pool j).is_private ≡ false
  clean s cs l j free = elim (Bool-cases (s.pool j).is_private) [
    | inl private ↦ let more = l.used j private in absurd (omega (arith, more, free))
    | inr shared ↦ shared
  ]

  -- A context that is not private.
  shared-Gets :
      (s : State h p) (cs : List (Ctx h p)) (tid : ℕ) (option : Bool)
      → Leased h p s cs
      → HasShared cs
      → Answers h p s
      → is_private_ctx h p option ≡ false
      → Gets cs tid (
          assign h p
            (if_missing h p
              (if_missing h p (search_shared h p s threshold) (unused_of h p))
              (λ s'. search_shared h p s' (negsuc 0)))
            tid
            option)
  shared-Gets s cs tid option l live answers shared =
      elim (search_shared_lem h p s threshold l.in_range answers) [
        | inl f ↦
            assign-Gets s cs tid option threshold _ l shared
              (subst (Found h p s threshold) (sym (rw f.gives refl)) f)
        | inr (missing, _) ↦ elim (search_unused_lem h p s (clean s cs l)) [
          | inl (k, at, inside, free) ↦ record {
            next = add_user h p s k;
            ctx = on h p k tid option;
            gives = rw (missing, found_unused s _ at) refl;
            thread = refl;
            leased =
                add_user-Leased h p s cs k tid option l inside (clean s cs l k free ∙ sym shared)
                  (λ q. absurd (true≢false (sym q ∙ shared)));
          }
          | inr (at, busy) ↦
              let f = last_resort s cs l live answers busy in
              assign-Gets s cs tid option (negsuc 0) _ l shared
                (subst (Found h p s (negsuc 0)) (sym (rw (missing, found_unused s _ at) refl)) f)
        ]
      ]

  demoted : is_private_ctx h p false ≡ false
  demoted = elim (Bool-cases p.disable_private) [ inl e ↦ rw e refl | inr e ↦ rw e refl ]

  -- The first private context of a thread.
  private-Gets :
      (s : State h p) (cs : List (Ctx h p)) (tid : ℕ) (option : Bool)
      → Leased h p s cs
      → HasShared cs
      → Answers h p s
      → is_private_ctx h p option ≡ true
      → (r : Option ℕ) → find s.kvs tid ≡ r
      → Gets cs tid (private_ctx h p r s tid option)
  unfolding private_ctx first_private
  private-Gets s cs tid option l live answers private (some i) there = record {
    next = add_user h p s i;
    ctx = on h p i tid option;
    gives = refl;
    thread = refl;
    leased =
        let kind = l.held tid i there in
        add_user-Leased h p s cs i tid option l (busy-lt s cs i l (l.used i kind))
          (kind ∙ sym private) (λ _. there);
  }
  private-Gets s cs tid option l live answers private none missing =
      elim (search_unused_lem h p s (clean s cs l)) [
        | inl (k, at, inside, free) ↦ record {
          next = make_private h p (add_user h p s k) k tid;
          ctx = on h p k tid option;
          gives = rw at refl;
          thread = refl;
          leased = make_private-Leased h p s cs k tid option l inside free private missing;
        }
        | inr (at, busy) ↦ elim (search_shared_lem h p s threshold l.in_range answers) [
          | inl f ↦ rw at (
              assign-Gets s cs tid false threshold _ l demoted
                (subst (Found h p s threshold) (sym (rw f.gives refl)) f))
          | inr (no_shared, _) ↦
              let f = last_resort s cs l live answers busy in
              rw at (
                assign-Gets s cs tid false (negsuc 0) _ l demoted
                  (subst (Found h p s (negsuc 0)) (sym (rw no_shared refl)) f))
        ]
      ]

  -- Where each STX counts the live contexts on it and a private STX is in use by one thread only,
  -- and one context is not private or there is none, `shmem_transport_ofi_stx_allocate` gives a new
  -- context an STX, and the same then holds of all contexts, the new one included. A random search,
  -- if that is the setting, is taken to draw an available STX wherever there is one.
  pub allocate-Gets :
      (s : State h p) (cs : List (Ctx h p)) (tid : ℕ) (option : Bool)
      → Leased h p s cs
      → HasShared cs
      → Answers h p s
      → Gets cs tid (allocate h p s tid option)
  unfolding allocate
  allocate-Gets s cs tid option l live answers =
      let nonempty : (stx_max == 0) ≡ false = ground (arith, l.in_range) in
      elim (Bool-cases (is_private_ctx h p option)) [
        | inl private ↦
            rw (nonempty, private, allocate)
              (private-Gets s cs tid option l live answers private (find s.kvs tid) refl)
        | inr shared ↦
            rw (nonempty, shared, allocate) (shared-Gets s cs tid option l live answers shared)
      ]
