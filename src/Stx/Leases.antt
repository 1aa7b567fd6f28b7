-- ===== src/Stx/Leases.antt =====
-- Which contexts hold which STX of src/transport_ofi.c.
use sandia_shmem.Base.{
  ℕ, ◌+◌, ◌<◌, ◌≡◌, refl, sym, ap, ◌∙◌, inl, inr, ==_iff, Bool-cases, Bool, true, false, List, [],
  ◌∷◌, Option, none, some, ◌==◌, if◌then◌else◌, arith, Elem,
}
use sandia_shmem.Stx.{Table, Settings, State, Ctx, is_private_ctx}

module _ (h : Table) (p : Settings) where
  open h use {find}
  open p use {stx_max}

  abbrev pub sits : Option ℕ → ℕ → Bool
  sits none i = false
  sits (some j) i = j == i

  abbrev pub index_of : ℕ → Option ℕ → ℕ
  index_of i none = i
  index_of i (some j) = j

  -- How many of the contexts hold the STX `i`.
  unfoldable pub users : List (Ctx h p) → ℕ → ℕ
  users [] i = 0
  users (c ∷ cs) i = (if sits c.stx_idx i then 1 else 0) + users cs i

  -- A context holds an STX of the pool, which is private exactly when the context is, and is then
  -- the one its thread has in the table.
  pub record Placed (s : State h p) (c : Ctx h p) : Type 0 where
    pub idx : ℕ
    pub holds : c.stx_idx ≡ some idx
    pub in_pool : idx < stx_max
    pub kind : (s.pool idx).is_private ≡ is_private_ctx h p c.option
    pub owned : is_private_ctx h p c.option ≡ true → find s.kvs c.tid ≡ some idx

  -- The state is that of these contexts, and no others: each STX counts the contexts that hold it, and a private STX
  -- is used and is that of one thread.
  pub record Leased (s : State h p) (cs : List (Ctx h p)) : Type 0 where
    pub counted : (i : ℕ) → (s.pool i).ref_cnt ≡ users cs i
    pub placed : (c : Ctx h p) → Elem c cs → Placed s c
    pub used : (i : ℕ) → (s.pool i).is_private ≡ true → 0 < (s.pool i).ref_cnt
    pub held : (t i : ℕ) → find s.kvs t ≡ some i → (s.pool i).is_private ≡ true
    pub single : (t t' i : ℕ) → find s.kvs t ≡ some i → find s.kvs t' ≡ some i → t ≡ t'
    pub in_range : s.rr_start_idx < stx_max

  -- An STX in use is one of the pool, since some context holds it.
  pub users-Placed :
      (s : State h p) (cs : List (Ctx h p)) (i : ℕ)
      → ((c : Ctx h p) → Elem c cs → Placed s c)
      → 0 < users cs i
      → (c : Ctx h p) × Elem c cs × (c.stx_idx ≡ some i)
  unfolding users
  users-Placed s [] i placed more = absurd (omega (arith, more))
  users-Placed s (c ∷ cs) i placed more =
      let w = placed c (inl refl) in
      elim (Bool-cases (w.idx == i)) [
        | inl e ↦ (c, inl refl, rw (sym ((==_iff w.idx i).0 e)) w.holds)
        | inr e ↦
            let less : 0 < users cs i = ground (arith, more, w.holds, e) in
            let (c', m, at) = users-Placed s cs i (λ d n. placed d (inr n)) less in (c', inr m, at)
      ]

  -- A context that holds an STX is counted.
  pub users-Elem :
      (cs : List (Ctx h p)) (c : Ctx h p) (i : ℕ) → Elem c cs → c.stx_idx ≡ some i → 0 < users cs i
  unfolding users
  users-Elem [] c i none_left at = absurd none_left
  users-Elem (d ∷ cs) c i (inl e) at =
      let at' : d.stx_idx ≡ some i = ap (λ x. x.stx_idx) (sym e) ∙ at in ground (arith, at')
  users-Elem (d ∷ cs) c i (inr m) at = let more = users-Elem cs c i m at in omega (arith, more)

  -- Two contexts on the same STX are of one kind, and private ones of one thread.
  pub shared_stx :
      (s : State h p) (cs : List (Ctx h p)) (c d : Ctx h p)
      → Leased s cs
      → Elem c cs
      → Elem d cs
      → c.stx_idx ≡ d.stx_idx
      → (is_private_ctx h p c.option ≡ is_private_ctx h p d.option)
        × (is_private_ctx h p c.option ≡ true → c.tid ≡ d.tid)
  shared_stx s cs c d l m n e =
      let v = l.placed c m in
      let w = l.placed d n in
      let same : v.idx ≡ w.idx = ap (index_of v.idx) (sym v.holds ∙ e ∙ w.holds) in
      let kinds = sym v.kind ∙ ap (λ i. (s.pool i).is_private) same ∙ w.kind in
      (
        kinds,
        λ private.
            l.single c.tid d.tid v.idx (v.owned private)
              (w.owned (sym kinds ∙ private) ∙ ap some (sym same)),
      )
