-- ===== src/Stx/Release.antt =====
-- What the destruction of a context gives back, by `shmem_transport_ctx_destroy` of src/transport_ofi.c.
use mathlib.Core.Bool.{true≢false}
use mathlib.Core.Path.{subst}
use sandia_shmem.Base.{
  ℕ, ◌+◌, ◌-◌, ◌<◌, ◌≡◌, ◌≢◌, refl, sym, ap, ◌∙◌, inl, inr, ==_iff, Bool-cases, true, false, List,
  [], ◌∷◌, some, ◌==◌, if◌then◌else◌, arith, Elem, ◌++◌, none_some, some-injective,
}
use sandia_shmem.Stx.{
  Table, Settings, State, Ctx, is_private_ctx, drop_user, make_shared, release, release_private,
  release_shared,
}
use sandia_shmem.Stx.Leases.{Leased, users, users-Elem, sits}
use sandia_shmem.Stx.Users.{==_self, ==-ne}

module _ (h : Table) (p : Settings) where
  open h use {Kvs, find, delete}
  open p use {stx_max}

  -- A list less one element.
  later_Elem :
      (xs ys : List (Ctx h p)) (c d : Ctx h p) → Elem d (xs ++ ys) → Elem d (xs ++ (c ∷ ys))
  later_Elem [] ys c d m = inr m
  later_Elem (x ∷ xs) ys c d (inl e) = inl e
  later_Elem (x ∷ xs) ys c d (inr m) = inr (later_Elem xs ys c d m)

  at_Elem : (xs ys : List (Ctx h p)) (c : Ctx h p) → Elem c (xs ++ (c ∷ ys))
  at_Elem [] ys c = inl refl
  at_Elem (x ∷ xs) ys c = inr (at_Elem xs ys c)

  users-split :
      (xs ys : List (Ctx h p)) (c : Ctx h p) (i : ℕ)
      → users h p (xs ++ (c ∷ ys)) i
        ≡ (if sits h p c.stx_idx i then 1 else 0) + users h p (xs ++ ys) i
  unfolding users
  users-split [] ys c i = refl
  users-split (x ∷ xs) ys c i = omega (arith, users-split xs ys c i)

  drop_user-ref_cnt :
      (s : State h p) (i j : ℕ)
      → ((drop_user h p s i).pool j).ref_cnt ≡ (s.pool j).ref_cnt - (if i == j then 1 else 0)
  drop_user-ref_cnt s i j = elim (Bool-cases (i == j)) [
    | inl e ↦ ground (arith, e, ap (λ n. (s.pool n).ref_cnt) ((==_iff i j).0 e))
    | inr e ↦ rw e (omega arith)
  ]

  drop_user-is_private :
      (s : State h p) (i j : ℕ) → ((drop_user h p s i).pool j).is_private ≡ (s.pool j).is_private
  drop_user-is_private s i j = elim (Bool-cases (i == j)) [
    | inl e ↦ rw e (ap (λ n. (s.pool n).is_private) ((==_iff i j).0 e))
    | inr e ↦ rw e refl
  ]

  make_shared-ref_cnt :
      (s : State h p) (i tid j : ℕ)
      → ((make_shared h p (drop_user h p s i) i tid).pool j).ref_cnt
        ≡ (s.pool j).ref_cnt - (if i == j then 1 else 0)
  make_shared-ref_cnt s i tid j = elim (Bool-cases (i == j)) [
    | inl e ↦ ground (
      arith,
      e,
      drop_user-ref_cnt s i j,
      ap (λ n. ((drop_user h p s i).pool n).ref_cnt) ((==_iff i j).0 e),
    )
    | inr e ↦ rw e (omega arith)
  ]

  make_shared-is_private :
      (s : State h p) (i tid j : ℕ)
      → ((make_shared h p (drop_user h p s i) i tid).pool j).is_private
        ≡ (if i == j then false else (s.pool j).is_private)
  make_shared-is_private s i tid j = elim (Bool-cases (i == j)) [
    | inl e ↦ rw e refl
    | inr e ↦ rw e refl
  ]

  -- One context fewer on an STX that is not private, or that other contexts still use.
  drop_user-Leased :
      (s : State h p) (xs ys : List (Ctx h p)) (c : Ctx h p) (i : ℕ)
      → Leased h p s (xs ++ (c ∷ ys))
      → c.stx_idx ≡ some i
      → ((s.pool i).is_private ≡ true → 0 < (s.pool i).ref_cnt - 1)
      → Leased h p (drop_user h p s i) (xs ++ ys)
  drop_user-Leased s xs ys c i l at still =
      let kept = drop_user-is_private s i in
      record {
        counted =
            λ j. ground (arith, drop_user-ref_cnt s i j, l.counted j, users-split xs ys c j, at);
        placed = λ d m.
            let w = l.placed d (later_Elem xs ys c d m) in
            record {
              idx = w.idx;
              holds = w.holds;
              in_pool = w.in_pool;
              kind = kept w.idx ∙ w.kind;
              owned = w.owned;
            };
        used = λ j q.
            let private = sym (kept j) ∙ q in
            let more = l.used j private in
            elim (Bool-cases (i == j)) [
              | inl e ↦
                  let same = (==_iff i j).0 e in
                  let left = still (ap (λ n. (s.pool n).is_private) same ∙ private) in
                  subst (λ n. 0 < ((drop_user h p s i).pool n).ref_cnt) same
                    (ground (arith, drop_user-ref_cnt s i i, ==_self i, left))
              | inr e ↦ ground (arith, e, drop_user-ref_cnt s i j, more)
            ];
        held = λ t j q. kept j ∙ l.held t j q;
        single = l.single;
        in_range = l.in_range;
      }

  left_entry :
      (kvs : Kvs) (tid t j : ℕ)
      → find (delete kvs tid) t ≡ some j
      → (tid ≢ t) × (find kvs t ≡ some j)
  left_entry kvs tid t j q =
      let found = h.find-delete kvs tid t in
      elim (Bool-cases (tid == t)) [
        | inl e ↦ none_some (found ∙ rw e refl) q
        | inr e ↦ (λ same. ground (arith, e, same), sym (found ∙ rw e refl) ∙ q)
      ]

  -- The last context of a thread on its private STX.
  make_shared-Leased :
      (s : State h p) (xs ys : List (Ctx h p)) (c : Ctx h p) (i : ℕ)
      → Leased h p s (xs ++ (c ∷ ys))
      → c.stx_idx ≡ some i
      → find s.kvs c.tid ≡ some i
      → (s.pool i).ref_cnt - 1 ≡ 0
      → Leased h p (make_shared h p (drop_user h p s i) i c.tid) (xs ++ ys)
  make_shared-Leased s xs ys c i l at there last =
      let s' = make_shared h p (drop_user h p s i) i c.tid in
      let count = make_shared-ref_cnt s i c.tid in
      let mark = make_shared-is_private s i c.tid in
      let rest : users h p (xs ++ ys) i ≡ 0 =
        ground (arith, l.counted i, users-split xs ys c i, at, ==_self i, last) in
      let gone : (d : Ctx h p) (j : ℕ) → Elem d (xs ++ ys) → d.stx_idx ≡ some j → i ≢ j =
        λ d j m holds e.
          let busy = users-Elem h p (xs ++ ys) d i m (holds ∙ ap some (sym e)) in
          omega (arith, busy, rest) in
      record {
        counted = λ j. ground (arith, count j, l.counted j, users-split xs ys c j, at);
        placed = λ d m.
            let w = l.placed d (later_Elem xs ys c d m) in
            let other = gone d w.idx m w.holds in
            record {
              idx = w.idx;
              holds = w.holds;
              in_pool = w.in_pool;
              kind = mark w.idx ∙ rw (==-ne other) w.kind;
              owned = λ q.
                  let apart : c.tid ≢ d.tid =
                    λ e. other (some-injective (sym there ∙ ap (find s.kvs) e ∙ w.owned q)) in
                  h.find-delete s.kvs c.tid d.tid ∙ rw (==-ne apart) (w.owned q);
            };
        used = λ j q. let more = l.used j in ground (arith, count j, mark j, q, more);
        held = λ t j q.
            let (apart, old) = left_entry s.kvs c.tid t j q in
            let other : i ≢ j = λ e. apart (l.single c.tid t j (there ∙ ap some e) old) in
            mark j ∙ rw (==-ne other) (l.held t j old);
        single = λ t t' j q q'.
            l.single t t' j (left_entry s.kvs c.tid t j q).1 (left_entry s.kvs c.tid t' j q').1;
        in_range = l.in_range;
      }

  module _ (s : State h p) (c : Ctx h p) (i : ℕ) (at : c.stx_idx ≡ some i)
      (busy : 0 < (s.pool i).ref_cnt) where
    nonzero : ((s.pool i).ref_cnt == 0) ≡ false
    nonzero = ground (arith, busy)

    left_users : ((drop_user h p s i).pool i).ref_cnt ≡ (s.pool i).ref_cnt - 1
    left_users = drop_user-ref_cnt s i i ∙ rw (==_self i) refl

    release_last :
        is_private_ctx h p c.option ≡ true
        → find s.kvs c.tid ≡ some i
        → ((s.pool i).ref_cnt - 1 == 0) ≡ true
        → release h p s c ≡ some (make_shared h p (drop_user h p s i) i c.tid)
    unfolding release release_private
    release_last private there last = rw (at, private, there, nonzero, left_users, last) refl

    release_more :
        is_private_ctx h p c.option ≡ true
        → find s.kvs c.tid ≡ some i
        → ((s.pool i).ref_cnt - 1 == 0) ≡ false
        → release h p s c ≡ some (drop_user h p s i)
    unfolding release release_private
    release_more private there more = rw (at, private, there, nonzero, left_users, more) refl

    release_other :
        is_private_ctx h p c.option ≡ false
        → (s.pool i).is_private ≡ false
        → release h p s c ≡ some (drop_user h p s i)
    unfolding release release_shared
    release_other shared kind = rw (at, shared, nonzero, drop_user-is_private s i i, kind) refl

  -- Where each STX counts the live contexts on it and a private STX is in use by one thread only,
  -- the destruction of any one of the contexts raises no error and takes no count below 0, and the
  -- same then holds of the contexts that are left.
  pub release-Leased :
      (s : State h p) (xs ys : List (Ctx h p)) (c : Ctx h p)
      → Leased h p s (xs ++ (c ∷ ys))
      → (s' : State h p) × (release h p s c ≡ some s') × Leased h p s' (xs ++ ys)
  release-Leased s xs ys c l =
      let w = l.placed c (at_Elem xs ys c) in
      let busy : 0 < (s.pool w.idx).ref_cnt = omega (
        arith,
        l.counted w.idx,
        users-Elem h p (xs ++ (c ∷ ys)) c w.idx (at_Elem xs ys c) w.holds,
      ) in
      elim (Bool-cases (is_private_ctx h p c.option)) [
        | inl private ↦ elim (Bool-cases ((s.pool w.idx).ref_cnt - 1 == 0)) [
          | inl last ↦
              let there = w.owned private in
              (
                make_shared h p (drop_user h p s w.idx) w.idx c.tid,
                release_last s c w.idx w.holds busy private there last,
                make_shared-Leased s xs ys c w.idx l w.holds there
                    ((==_iff ((s.pool w.idx).ref_cnt - 1) 0).0 last),
              )
          | inr more ↦ (
            drop_user h p s w.idx,
            release_more s c w.idx w.holds busy private (w.owned private) more,
            drop_user-Leased s xs ys c w.idx l w.holds (λ _. ground (arith, more)),
          )
        ]
        | inr shared ↦
            let kind = w.kind ∙ shared in
            (
              drop_user h p s w.idx,
              release_other s c w.idx w.holds busy shared kind,
              drop_user-Leased s xs ys c w.idx l w.holds (λ q. absurd (true≢false (sym q ∙ kind))),
            )
      ]
