-- ===== src/Stx.antt =====
-- The transmit contexts (STX) that the contexts of src/transport_ofi.c share: `shmem_transport_ofi_stx_allocate` with its
-- searches, and the part of `shmem_transport_ctx_destroy` that gives an STX back. The hash table is that of
-- uthash.h, `rand_r` that of the C library; both are parameters. Memory for a table entry is there. The
-- mutex that callers hold makes each call one step. A failed assertion is `none`.
pub mod Leases
pub mod Search
pub mod Users
pub mod Allocate
pub mod Release
pub mod Reached
pub mod Auto
pub mod Tests
use sandia_shmem.Base.{
  ℕ, zero, suc, ◌+◌, ◌-◌, ◌*◌, ◌/◌, ◌%◌, ◌≡◌, Bool, true, false, not, ◌&&◌, ◌||◌, Option, none,
  some, ltb, ◌==◌, if◌then◌else◌,
}
use sandia_shmem.Base.Int.{ℤ, pos, negsuc, ltb_ℤ, ◌==ℤ◌}
use sandia_shmem.Comm.{update}

-- `shmem_transport_ofi_stx_t`, less the handle of the provider
pub record Stx : Type 0 where
  pub ref_cnt : ℕ
  pub is_private : Bool

pub data Allocator : Type 0 where
  round_robin random : Allocator

-- The settings; `stx_max` is the length of the pool. `rand_r` takes a seed to a value from 0 to `rand_max` and the next seed.
-- `probes` bounds the draws of a random search.
pub record Settings : Type 0 where
  pub allocator : Allocator
  pub stx_max : ℕ
  pub threshold : ℤ
  pub disable_private : Bool
  pub rand_r : ℕ → ℕ × ℕ
  pub rand_max : ℕ
  pub probes : ℕ

-- A table from the identity of a thread to an index. A key is added only where there is none.
pub record Table : Type 1 where
  pub Kvs : Type 0
  pub find : Kvs → ℕ → Option ℕ
  pub insert : Kvs → ℕ → ℕ → Kvs
  pub delete : Kvs → ℕ → Kvs
  pub find-insert :
      (t : Kvs) (k v j : ℕ)
      → find t k ≡ none
      → find (insert t k v) j ≡ (if k == j then some v else find t j)
  pub find-delete : (t : Kvs) (k j : ℕ) → find (delete t k) j ≡ (if k == j then none else find t j)

module _ (h : Table) (p : Settings) where
  open h use {Kvs, find, insert, delete}
  open p use {allocator, stx_max, threshold, disable_private, rand_r, rand_max, probes}

  pub record State : Type 0 where
    pub pool : ℕ → Stx
    pub kvs : Kvs
    pub rr_start_idx : ℕ
    pub rand_pool_seed : ℕ

  -- `shmem_transport_ofi_is_private`, where `option` is the bit SHMEM_CTX_PRIVATE of the options
  abbrev pub is_private_ctx : Bool → Bool
  is_private_ctx option = not disable_private && option

  -- The condition of the searches for a shared STX.
  abbrev pub available : ℤ → Stx → Bool
  available limit stx =
      ltb 0 stx.ref_cnt
      && (not (ltb_ℤ limit (pos stx.ref_cnt)) || (limit ==ℤ negsuc 0))
      && not stx.is_private

  -- The loop of `stx_search_unused` from `i` on, with `left` to go: the index, where the inner `none` is -1. The
  -- outer `none` is the assertion that an unused STX is not private.
  unfoldable pub unused_from : (ℕ → Stx) → ℕ → ℕ → Option (Option ℕ)
  unused_from pool zero i = some none
  unused_from pool (suc left) i =
      let rest = unused_from pool left (i + 1) in
      if (pool i).ref_cnt == 0 then (if (pool i).is_private then none else some (some i)) else rest

  unfoldable pub search_unused : State → Option (Option ℕ)
  unfolding unused_from
  search_unused s = unused_from s.pool stx_max 0

  -- The loop of the round-robin search from `i` on, with `left` to go.
  unfoldable pub round_from : (ℕ → Stx) → ℤ → ℕ → ℕ → Option ℕ
  round_from pool limit zero i = none
  round_from pool limit (suc left) i =
      let rest = round_from pool limit left ((i + 1) % stx_max) in
      if available limit (pool i) then some i else rest

  -- Whether the random search counts an available STX from `i` on.
  unfoldable pub any_from : (ℕ → Stx) → ℤ → ℕ → ℕ → Bool
  any_from pool limit zero i = false
  any_from pool limit (suc left) i =
      let rest = any_from pool limit left (i + 1) in if available limit (pool i) then true else rest

  -- Draws until an STX is available: its index, and the seed after. `none` is that the draws did not do.
  unfoldable pub probe : (ℕ → Stx) → ℤ → ℕ → ℕ → Option (ℕ × ℕ)
  probe pool limit zero seed = none
  probe pool limit (suc left) seed =
      let (value, after) = rand_r seed in
      let stx_idx = value * stx_max / (rand_max + 1) in
      let rest = probe pool limit left after in
      if available limit (pool stx_idx) then some (stx_idx, after) else rest

  -- The cases of the switch of `stx_search_shared`.
  unfoldable pub search_with : Allocator → State → ℤ → Option (State × Option ℕ)
  unfolding round_from any_from probe
  search_with round_robin s limit = elim (round_from s.pool limit stx_max s.rr_start_idx) [
    | none ↦ some (s, none)
    | some i ↦ some (record s { rr_start_idx = (i + 1) % stx_max }, some i)
  ]
  search_with random s limit =
      if any_from s.pool limit stx_max 0
      then elim (probe s.pool limit probes s.rand_pool_seed) [
        | none ↦ none
        | some (i, seed) ↦ some (record s { rand_pool_seed = seed }, some i)
      ]
      else some (s, none)

  -- `stx_search_shared`: the state after, and the index, where `none` is -1. The outer `none` is a random search that
  -- has used up its draws.
  unfoldable pub search_shared : State → ℤ → Option (State × Option ℕ)
  unfolding search_with
  search_shared s limit = search_with allocator s limit

  -- What the two calls use of a `shmem_transport_ctx_t`: `stx_idx` is `none` where the source has -1, `option` is the
  -- bit SHMEM_CTX_PRIVATE.
  pub record Ctx : Type 0 where
    pub stx_idx : Option ℕ
    pub tid : ℕ
    pub option : Bool

  -- `if (stx_idx < 0)` search again.
  abbrev pub if_missing :
      Option (State × Option ℕ) → (State → Option (State × Option ℕ)) → Option (State × Option ℕ)
  if_missing none again = none
  if_missing (some (s, none)) again = again s
  if_missing (some (s, some i)) again = some (s, some i)

  abbrev pub add_user : State → ℕ → State
  add_user s i = record s {
    pool = update s.pool i (record (s.pool i) { ref_cnt = (s.pool i).ref_cnt + 1 });
  }

  -- The assertion that a search has found an STX, and one more user of it.
  abbrev pub assign : Option (State × Option ℕ) → ℕ → Bool → Option (State × Ctx)
  assign none tid option = none
  assign (some (s, none)) tid option = none
  assign (some (s, some i)) tid option =
      some (add_user s i, record { stx_idx = some i; tid = tid; option = option })

  -- The STX `i`, unused before, becomes private to the thread.
  abbrev pub make_private : State → ℕ → ℕ → State
  make_private s i tid = record s {
    pool = update s.pool i (record (s.pool i) { is_private = true });
    kvs = insert s.kvs tid i;
  }

  abbrev pub any_shared : State → Option (State × Option ℕ)
  any_shared s = if_missing (search_shared s threshold) (λ s'. search_shared s' (negsuc 0))

  -- A private context of a thread that has no STX.
  unfoldable pub first_private : Option (Option ℕ) → State → ℕ → Bool → Option (State × Ctx)
  unfolding search_shared
  first_private none s tid option = none
  first_private (some (some i)) s tid option =
      some
        (make_private (add_user s i) i tid, record { stx_idx = some i; tid = tid; option = option })
  first_private (some none) s tid option = assign (any_shared s) tid false

  unfoldable pub private_ctx : Option ℕ → State → ℕ → Bool → Option (State × Ctx)
  unfolding first_private search_unused
  private_ctx (some i) s tid option =
      some (add_user s i, record { stx_idx = some i; tid = tid; option = option })
  private_ctx none s tid option = first_private (search_unused s) s tid option

  abbrev pub unused_of : State → Option (State × Option ℕ)
  unused_of s = elim (search_unused s) [ none ↦ none | some r ↦ some (s, r) ]

  -- `shmem_transport_ofi_stx_allocate` for a context of the thread `tid`.
  unfoldable pub allocate : State → ℕ → Bool → Option (State × Ctx)
  unfolding private_ctx search_shared
  allocate s tid option =
      if stx_max == 0
      then some (s, record { stx_idx = none; tid = tid; option = option })
      else if is_private_ctx option
      then private_ctx (find s.kvs tid) s tid option
      else assign
          (if_missing (if_missing (search_shared s threshold) unused_of)
            (λ s'. search_shared s' (negsuc 0)))
          tid option

  abbrev pub drop_user : State → ℕ → State
  drop_user s i = record s {
    pool = update s.pool i (record (s.pool i) { ref_cnt = (s.pool i).ref_cnt - 1 });
  }

  -- The entry of the thread is deleted, and the STX `i` can be shared again.
  abbrev pub make_shared : State → ℕ → ℕ → State
  make_shared s i tid = record s {
    pool = update s.pool i (record (s.pool i) { is_private = false });
    kvs = delete s.kvs tid;
  }

  unfoldable pub release_private : Option ℕ → State → ℕ → ℕ → Option State
  release_private none s i tid = some s
  release_private (some _) s i tid =
      if (s.pool i).ref_cnt == 0
      then none
      else let s' = drop_user s i in
        if (s'.pool i).ref_cnt == 0 then some (make_shared s' i tid) else some s'

  unfoldable pub release_shared : State → ℕ → Option State
  release_shared s i =
      if (s.pool i).ref_cnt == 0
      then none
      else let s' = drop_user s i in if (s'.pool i).is_private then none else some s'

  -- The part of `shmem_transport_ctx_destroy` under `if (ctx->stx_idx >= 0)`. `none` is the error about
  -- an inconsistent field, or a count that would turn negative.
  unfoldable pub release : State → Ctx → Option State
  unfolding release_private release_shared
  release s ctx = elim ctx.stx_idx [
    | none ↦ some s
    | some i ↦
        if is_private_ctx ctx.option
        then release_private (find s.kvs ctx.tid) s i ctx.tid
        else release_shared s i
  ]
