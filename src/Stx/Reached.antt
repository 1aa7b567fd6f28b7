-- ===== src/Stx/Reached.antt =====
-- The states of the STX pool of src/transport_ofi.c that calls of `shmem_transport_ofi_stx_allocate` and
-- `shmem_transport_ctx_destroy` lead to, in any order.
use mathlib.Core.Path.{subst}
use sandia_shmem.Base.{
  ℕ, ◌<◌, ◌≡◌, sym, ap, ◌∙◌, Bool, true, false, List, [], ◌∷◌, ◌++◌, none, some, none_some,
  some-injective, Elem,
}
use sandia_shmem.Stx.{Table, Settings, State, Ctx, is_private_ctx, allocate, release}
use sandia_shmem.Stx.Leases.{Leased, users, shared_stx}
use sandia_shmem.Stx.Search.{Answers}
use sandia_shmem.Stx.Allocate.{HasShared, allocate-Gets}
use sandia_shmem.Stx.Release.{release-Leased}

module _ (h : Table) (p : Settings) where
  open h use {find}
  open p use {stx_max}

  -- The state, with the contexts that are alive. In the first one no STX is in use. A context is created only while none is
  -- there or a shared one is, as the default context is, and a random search ends.
  pub data Reached : State h p → List (Ctx h p) → Type 0 where
    start :
        {s : State h p}
        → ((i : ℕ) → s.pool i ≡ record { ref_cnt = 0; is_private = false })
        → ((t : ℕ) → find s.kvs t ≡ none)
        → s.rr_start_idx < stx_max
        → Reached s []
    created :
        {s s' : State h p} {cs : List (Ctx h p)} {c : Ctx h p} (tid : ℕ) (option : Bool)
        → Reached s cs
        → HasShared h p cs
        → Answers h p s
        → allocate h p s tid option ≡ some (s', c)
        → Reached s' (c ∷ cs)
    destroyed :
        {s s' : State h p} (xs ys : List (Ctx h p)) (c : Ctx h p)
        → Reached s (xs ++ (c ∷ ys))
        → release h p s c ≡ some s'
        → Reached s' (xs ++ ys)

  start-Leased :
      (s : State h p)
      → ((i : ℕ) → s.pool i ≡ record { ref_cnt = 0; is_private = false })
      → ((t : ℕ) → find s.kvs t ≡ none)
      → s.rr_start_idx < stx_max
      → Leased h p s []
  unfolding users
  start-Leased s unused empty lt = record {
    counted = λ i. ap (λ x. x.ref_cnt) (unused i);
    placed = λ c m. absurd m;
    used = λ i e. let f : false ≡ true = ap (λ x. x.is_private) (sym (unused i)) ∙ e in absurd cc;
    held = λ t i e. none_some (empty t) e;
    single = λ t t' i e e'. none_some (empty t) e;
    in_range = lt;
  }

  Reached-Leased : {s : State h p} {cs : List (Ctx h p)} → Reached s cs → Leased h p s cs
  Reached-Leased {s} (start unused empty lt) = start-Leased s unused empty lt
  Reached-Leased (created {s = s} {s' = s'} {cs = cs} {c = c} tid option r shared answers e) =
      let g = allocate-Gets h p s cs tid option (Reached-Leased r) shared answers in
      let pair = some-injective (sym g.gives ∙ e) in
      subst (λ y. Leased h p y.0 (y.1 ∷ cs)) pair g.leased
  Reached-Leased (destroyed {s = s} {s' = s'} xs ys c r e) =
      let (out, gives, l) = release-Leased h p s xs ys c (Reached-Leased r) in
      subst (λ y. Leased h p y (xs ++ ys)) (some-injective (sym gives ∙ e)) l

  -- In every state that creations and destructions of contexts lead to, in any order, from a pool in which no STX is in use:
  -- each STX counts the contexts on it, every context has an STX of the pool, and two contexts that share an
  -- STX are both private or both not; where they are private, they are the same thread's. A context is
  -- created only while none is there or a shared one is, and a random search ends.
  pub same_thread :
      {s : State h p} {cs : List (Ctx h p)}
      → Reached s cs
      → ((i : ℕ) → (s.pool i).ref_cnt ≡ users h p cs i)
        × ((c : Ctx h p) → Elem c cs → (i : ℕ) × (c.stx_idx ≡ some i) × (i < stx_max))
        × ((c d : Ctx h p)
            → Elem c cs
            → Elem d cs
            → c.stx_idx ≡ d.stx_idx
            → (is_private_ctx h p c.option ≡ is_private_ctx h p d.option)
              × (is_private_ctx h p c.option ≡ true → c.tid ≡ d.tid))
  same_thread {s} {cs} r =
      let l = Reached-Leased r in
      (
        l.counted,
        (λ c m. let w = l.placed c m in (w.idx, w.holds, w.in_pool)),
        (λ c d m n e. shared_stx h p s cs c d l m n e),
      )
