-- ===== src/Stx/Tests.antt =====
-- Runs of the STX part of src/transport_ofi.c.
use mathlib.Core.Bool.{true≢false}
use mathlib.Core.Path.{subst}
use sandia_shmem.Base.{
  ℕ, ◌<◌, ◌≡◌, refl, inl, inr, Bool, true, false, List, [], ◌∷◌, Option, none, some, ◌==◌, arith,
  sym, Bool-cases, ◌∙◌, ==_iff, ◌*◌, ◌+◌, ◌↔◌, none_some, some-injective, Elem,
}
use sandia_shmem.Base.Int.{pos}
use sandia_shmem.Comm.{update}
use sandia_shmem.Stx.{
  Table, Settings, State, Ctx, round_robin, allocate, release, is_private_ctx, Allocator, random,
  round_from, any_from,
}
use sandia_shmem.Stx.Leases.{Leased, Placed, users}
use sandia_shmem.Stx.Reached.{Reached, start, created, same_thread}
use sandia_shmem.Stx.Search.{round_from-any_from_iff, Answers}
use sandia_shmem.Stx.Allocate.{Gets, allocate-Gets}
use sandia_shmem.Stx.Auto.{auto_max, auto_max_lem, total}
use sandia_shmem.Stx.Release.{release-Leased}

abbrev table : Table
table = record {
  Kvs = ℕ → Option ℕ;
  find = λ t k. t k;
  insert = λ t k v. update t k (some v);
  delete = λ t k. update t k none;
  find-insert = λ t k v j missing. refl;
  find-delete = λ t k j. refl;
}

abbrev two_stx : Settings
two_stx = record {
  allocator = round_robin;
  stx_max = 2;
  threshold = pos 1;
  disable_private = false;
  rand_r = λ seed. (seed, seed);
  rand_max = 7;
  probes = 0;
}

abbrev ctx : ℕ → ℕ → Bool → Ctx table two_stx
ctx i tid option = record { stx_idx = some i; tid = tid; option = option }

abbrev the_thread : ℕ
the_thread = 5

-- The default context on STX 0, two private contexts of thread 5 on STX 1.
abbrev three_ctxs : List (Ctx table two_stx)
three_ctxs = ctx 0 0 false ∷ ctx 1 5 true ∷ ctx 1 5 true ∷ []

abbrev in_use : State table two_stx
in_use = record {
  pool =
      update
        (update (λ i. record { ref_cnt = 0; is_private = false }) 0
          (record { ref_cnt = 1; is_private = false }))
        1 (record { ref_cnt = 2; is_private = true });
  kvs = update (λ t. none) 5 (some 1);
  rr_start_idx = 1;
  rand_pool_seed = 0;
}

default-Placed : Placed table two_stx in_use (ctx 0 0 false)
default-Placed = record {
  idx = 0;
  holds = refl;
  in_pool = omega arith;
  kind = refl;
  owned = λ e. ground (arith, e);
}

private-Placed : Placed table two_stx in_use (ctx 1 5 true)
private-Placed = record {
  idx = 1;
  holds = refl;
  in_pool = omega arith;
  kind = refl;
  owned = λ e. refl;
}

counted_at : (i : ℕ) → (in_use.pool i).ref_cnt ≡ users table two_stx three_ctxs i
unfolding users
counted_at i = elim (Bool-cases (1 == i)) [
  | inl e ↦ rw e (ground (arith, e))
  | inr e ↦ elim (Bool-cases (0 == i)) [ inl e' ↦ rw (e, e') refl | inr e' ↦ rw (e, e') refl ]
]

shared_at : (i : ℕ) → (1 == i) ≡ false → (in_use.pool i).is_private ≡ false
shared_at i e = elim (Bool-cases (0 == i)) [ inl e' ↦ rw (e, e') refl | inr e' ↦ rw (e, e') refl ]

private_at : (i : ℕ) → (in_use.pool i).is_private ≡ true → 1 ≡ i
private_at i e = elim (Bool-cases (1 == i)) [
  | inl same ↦ (==_iff 1 i).0 same
  | inr other ↦ absurd (true≢false (sym e ∙ shared_at i other))
]

entry_is : (t : ℕ) → (5 == t) ≡ true → in_use.kvs t ≡ some 1
entry_is t e = rw e refl

no_entry : (t : ℕ) → (5 == t) ≡ false → in_use.kvs t ≡ none
no_entry t e = rw e refl

entry_at : (t i : ℕ) → in_use.kvs t ≡ some i → (5 ≡ t) × (1 ≡ i)
entry_at t i e = elim (Bool-cases (5 == t)) [
  | inl same ↦ ((==_iff 5 t).0 same, some-injective (sym (entry_is t same) ∙ e))
  | inr other ↦ none_some (no_entry t other) e
]

in_use-Leased : Leased table two_stx in_use three_ctxs
unfolding users
in_use-Leased = record {
  counted = counted_at;
  placed = λ c m. elim m [
    | inl e ↦ subst (Placed table two_stx in_use) (sym e) default-Placed
    | inr (inl e) ↦ subst (Placed table two_stx in_use) (sym e) private-Placed
    | inr (inr (inl e)) ↦ subst (Placed table two_stx in_use) (sym e) private-Placed
    | inr (inr (inr none_left)) ↦ absurd none_left
  ];
  used = λ i e. subst (λ n. 0 < (in_use.pool n).ref_cnt) (private_at i e) (omega arith);
  held = λ t i e. subst (λ n. (in_use.pool n).is_private ≡ true) (entry_at t i e).1 refl;
  single = λ t t' i e e'. sym (entry_at t i e).0 ∙ (entry_at t' i e').0;
  in_range = omega arith;
}

IsRandom : Allocator → Type 0
IsRandom round_robin = ⊥
IsRandom random = Unit

round_robin_random : ¬ (round_robin ≡ random)
unfolding IsRandom
round_robin_random e = subst IsRandom (sym e) tt

answered : Answers table two_stx in_use
answered e = absurd (round_robin_random e)

-- A thread that has no STX yet: all are in use, and it gets the shared one.
allocate-Gets_example : Gets table two_stx three_ctxs 6 (allocate table two_stx in_use 6 true)
allocate-Gets_example =
    allocate-Gets table two_stx in_use three_ctxs 6 true in_use-Leased
      (inr (ctx 0 0 false, inl refl, refl)) answered

allocate_run :
    allocate table two_stx in_use 6 true
    ≡ some (
      record in_use { pool = update in_use.pool 0 (record { ref_cnt = 2; is_private = false }) },
      ctx 0 6 false,
    )
unfolding allocate
allocate_run = refl

release-Leased_example :
    (s' : State table two_stx) × (release table two_stx in_use (ctx 1 5 true) ≡ some s')
    × Leased table two_stx s' (ctx 0 0 false ∷ ctx 1 5 true ∷ [])
release-Leased_example =
    release-Leased table two_stx in_use (ctx 0 0 false ∷ []) (ctx 1 5 true ∷ []) (ctx 1 5 true)
      in_use-Leased

abbrev unused : State table two_stx
unused = record {
  pool = λ i. record { ref_cnt = 0; is_private = false };
  kvs = λ t. none;
  rr_start_idx = 0;
  rand_pool_seed = 0;
}

abbrev state_of : Option (State table two_stx × Ctx table two_stx) → State table two_stx
state_of none = unused
state_of (some (s, c)) = s

-- The default context is created, then two private contexts of thread 5.
abbrev with_default : State table two_stx
with_default = state_of (allocate table two_stx unused 0 false)

abbrev with_private : State table two_stx
with_private = state_of (allocate table two_stx with_default the_thread true)

abbrev with_both : State table two_stx
with_both = state_of (allocate table two_stx with_private the_thread true)

abbrev default_ctx : Ctx table two_stx
default_ctx = ctx 0 0 false

abbrev private_ctx : Ctx table two_stx
private_ctx = ctx 1 5 true

never_random : (s : State table two_stx) → Answers table two_stx s
never_random s e = absurd (round_robin_random e)

creates_default : allocate table two_stx unused 0 false ≡ some (with_default, default_ctx)
unfolding allocate
creates_default = refl

creates_private :
    allocate table two_stx with_default the_thread true ≡ some (with_private, private_ctx)
unfolding allocate
creates_private = refl

creates_both : allocate table two_stx with_private the_thread true ≡ some (with_both, private_ctx)
unfolding allocate
creates_both = refl

three_reached : Reached table two_stx with_both (private_ctx ∷ private_ctx ∷ default_ctx ∷ [])
three_reached =
    created the_thread true
      (created the_thread true
        (created 0 false (start (λ i. refl) (λ t. refl) (omega arith)) (inl refl)
          (never_random unused) creates_default)
        (inr (default_ctx, inl refl, refl)) (never_random with_default) creates_private)
      (inr (default_ctx, inr (inl refl), refl)) (never_random with_private) creates_both

same_thread_example :
    ((i : ℕ)
      → (with_both.pool i).ref_cnt
        ≡ users table two_stx (private_ctx ∷ private_ctx ∷ default_ctx ∷ []) i)
    × ((c : Ctx table two_stx)
        → Elem c (private_ctx ∷ private_ctx ∷ default_ctx ∷ [])
        → (i : ℕ) × (c.stx_idx ≡ some i) × (i < 2))
    × ((c d : Ctx table two_stx)
        → Elem c (private_ctx ∷ private_ctx ∷ default_ctx ∷ [])
        → Elem d (private_ctx ∷ private_ctx ∷ default_ctx ∷ [])
        → c.stx_idx ≡ d.stx_idx
        → (is_private_ctx table two_stx c.option ≡ is_private_ctx table two_stx d.option)
          × (is_private_ctx table two_stx c.option ≡ true → c.tid ≡ d.tid))
same_thread_example = same_thread table two_stx three_reached

-- Three PEs of the second node share eight contexts.
auto_max_lem_example :
    (share : ℕ → ℕ) × ((i : ℕ) → i < 3 → auto_max (pos 8) 3 (1 * 3 + i) 6 ≡ some (share i))
    × (total share 3 ≡ 8)
auto_max_lem_example = auto_max_lem 8 3 1 6 (omega arith) (omega arith) (omega arith)

round_from-any_from_iff_example :
    (round_from table two_stx in_use.pool (pos 1) 2 1 ≡ none)
    ↔ (any_from table two_stx in_use.pool (pos 1) 2 0 ≡ false)
round_from-any_from_iff_example =
    round_from-any_from_iff table two_stx in_use.pool (pos 1) 1 (omega arith)
