-- ===== src/Stx/Users.antt =====
-- One more context on an STX of src/transport_ofi.c, in the pool that contexts hold.
use mathlib.Core.Path.{subst}
use sandia_shmem.Base.{
  ℕ, ◌+◌, ◌<◌, ◌≡◌, ◌≢◌, refl, sym, ap, ◌∙◌, inl, inr, ==_iff, Bool-cases, Bool, true, false, List,
  ◌∷◌, none, some, ◌==◌, if◌then◌else◌, arith, Elem, ◌⊎◌, none_some, some-injective,
}
use sandia_shmem.Stx.{Table, Settings, State, Ctx, is_private_ctx, add_user, make_private}
use sandia_shmem.Stx.Leases.{Leased, Placed, users, users-Elem}

pub ==_self : (i : ℕ) → (i == i) ≡ true
==_self i = (==_iff i i).1 refl

pub ==-ne : {i j : ℕ} → i ≢ j → (i == j) ≡ false
==-ne {i} {j} other = ground (arith, other)

module _ (h : Table) (p : Settings) where
  open h use {Kvs, find, insert}
  open p use {stx_max}

  -- `Leased` reads the pool, the table and the start of the searches only.
  pub Leased-same :
      (s t : State h p) (cs : List (Ctx h p))
      → t.pool ≡ s.pool
      → t.kvs ≡ s.kvs
      → t.rr_start_idx < stx_max
      → Leased h p s cs
      → Leased h p t cs
  Leased-same s t cs e k start l = record {
    counted = λ i. ap (λ f. (f i).ref_cnt) e ∙ l.counted i;
    placed = λ c m.
        let w = l.placed c m in
        record {
          idx = w.idx;
          holds = w.holds;
          in_pool = w.in_pool;
          kind = ap (λ f. (f w.idx).is_private) e ∙ w.kind;
          owned = λ q. ap (λ v. find v c.tid) k ∙ w.owned q;
        };
    used = λ i q.
        subst (λ f. 0 < (f i).ref_cnt) (sym e) (l.used i (ap (λ f. (f i).is_private) (sym e) ∙ q));
    held = λ t i q. ap (λ f. (f i).is_private) e ∙ l.held t i (ap (λ v. find v t) (sym k) ∙ q);
    single = λ t t' i q q'.
        l.single t t' i (ap (λ v. find v t) (sym k) ∙ q) (ap (λ v. find v t') (sym k) ∙ q');
    in_range = start;
  }

  add_user-ref_cnt :
      (s : State h p) (i j : ℕ)
      → ((add_user h p s i).pool j).ref_cnt ≡ (if i == j then 1 else 0) + (s.pool j).ref_cnt
  add_user-ref_cnt s i j = elim (Bool-cases (i == j)) [
    | inl e ↦ ground (arith, e, ap (λ n. (s.pool n).ref_cnt) ((==_iff i j).0 e))
    | inr e ↦ rw e (omega arith)
  ]

  add_user-is_private :
      (s : State h p) (i j : ℕ) → ((add_user h p s i).pool j).is_private ≡ (s.pool j).is_private
  add_user-is_private s i j = elim (Bool-cases (i == j)) [
    | inl e ↦ rw e (ap (λ n. (s.pool n).is_private) ((==_iff i j).0 e))
    | inr e ↦ rw e refl
  ]

  make_private-ref_cnt :
      (s : State h p) (i tid j : ℕ)
      → ((make_private h p (add_user h p s i) i tid).pool j).ref_cnt
        ≡ (if i == j then 1 else 0) + (s.pool j).ref_cnt
  make_private-ref_cnt s i tid j = elim (Bool-cases (i == j)) [
    | inl e ↦ ground (
      arith,
      e,
      add_user-ref_cnt s i j,
      ap (λ n. ((add_user h p s i).pool n).ref_cnt) ((==_iff i j).0 e),
    )
    | inr e ↦ rw e (omega arith)
  ]

  make_private-is_private :
      (s : State h p) (i tid j : ℕ)
      → ((make_private h p (add_user h p s i) i tid).pool j).is_private
        ≡ (if i == j then true else (s.pool j).is_private)
  make_private-is_private s i tid j = elim (Bool-cases (i == j)) [
    | inl e ↦ rw e refl
    | inr e ↦ rw e refl
  ]

  entry_cases :
      (kvs : Kvs) (i tid t j : ℕ)
      → find (insert kvs tid i) t ≡ some j
      → find kvs tid ≡ none
      → ((tid ≡ t) × (i ≡ j)) ⊎ (find kvs t ≡ some j)
  entry_cases kvs i tid t j q missing =
      let found = h.find-insert kvs tid i t missing in
      elim (Bool-cases (tid == t)) [
        | inl e ↦ inl ((==_iff tid t).0 e, some-injective (sym (found ∙ rw e refl) ∙ q))
        | inr e ↦ inr (sym (found ∙ rw e refl) ∙ q)
      ]

  kept_entry :
      (kvs : Kvs) (i tid t j : ℕ)
      → find kvs tid ≡ none
      → find kvs t ≡ some j
      → find (insert kvs tid i) t ≡ some j
  kept_entry kvs i tid t j missing q =
      let other : tid ≢ t = λ e. none_some missing (ap (find kvs) e ∙ q) in
      h.find-insert kvs tid i t missing ∙ rw (==-ne other) q

  -- The context with the STX `i`.
  abbrev pub on : ℕ → ℕ → Bool → Ctx h p
  on i tid option = record { stx_idx = some i; tid = tid; option = option }

  -- One more context on an STX of its kind.
  pub add_user-Leased :
      (s : State h p) (cs : List (Ctx h p)) (i tid : ℕ) (option : Bool)
      → Leased h p s cs
      → i < stx_max
      → (s.pool i).is_private ≡ is_private_ctx h p option
      → (is_private_ctx h p option ≡ true → find s.kvs tid ≡ some i)
      → Leased h p (add_user h p s i) (on i tid option ∷ cs)
  unfolding users
  add_user-Leased s cs i tid option l inside kind owned =
      let kept = add_user-is_private s i in
      let first : Placed h p (add_user h p s i) (on i tid option) = record {
        idx = i;
        holds = refl;
        in_pool = inside;
        kind = kept i ∙ kind;
        owned = owned;
      } in
      record {
        counted =
            λ j. add_user-ref_cnt s i j ∙ ap (λ n. (if i == j then 1 else 0) + n) (l.counted j);
        placed = λ c m. elim m [
          | inl e ↦ subst (Placed h p (add_user h p s i)) (sym e) first
          | inr m' ↦
              let w = l.placed c m' in
              record {
                idx = w.idx;
                holds = w.holds;
                in_pool = w.in_pool;
                kind = kept w.idx ∙ w.kind;
                owned = w.owned;
              }
        ];
        used = λ j q.
            let more = l.used j (sym (kept j) ∙ q) in ground (arith, add_user-ref_cnt s i j, more);
        held = λ t j q. kept j ∙ l.held t j q;
        single = l.single;
        in_range = l.in_range;
      }

  -- The first private context of a thread, on an STX not used so far.
  pub make_private-Leased :
      (s : State h p) (cs : List (Ctx h p)) (i tid : ℕ) (option : Bool)
      → Leased h p s cs
      → i < stx_max
      → (s.pool i).ref_cnt ≡ 0
      → is_private_ctx h p option ≡ true
      → find s.kvs tid ≡ none
      → Leased h p (make_private h p (add_user h p s i) i tid) (on i tid option ∷ cs)
  unfolding users
  make_private-Leased s cs i tid option l inside free private missing =
      let s' = make_private h p (add_user h p s i) i tid in
      let count = make_private-ref_cnt s i tid in
      let mark = make_private-is_private s i tid in
      let found = λ (t : ℕ). h.find-insert s.kvs tid i t missing in
      let unheld : (t : ℕ) → find s.kvs t ≢ some i =
        λ t q. let more = l.used i (l.held t i q) in omega (arith, more, free) in
      let entries =
        λ (t j : ℕ). λ (q : find s'.kvs t ≡ some j). entry_cases s.kvs i tid t j q missing in
      let first : Placed h p s' (on i tid option) = record {
        idx = i;
        holds = refl;
        in_pool = inside;
        kind = mark i ∙ rw (==_self i) (sym private);
        owned = λ q. found tid ∙ rw (==_self tid) refl;
      } in
      let later : (c : Ctx h p) → Elem c cs → Placed h p s' c = λ c m.
        let w = l.placed c m in
        let busy = users-Elem h p cs c w.idx m w.holds in
        let other : i ≢ w.idx =
          λ e. omega (arith, busy, l.counted w.idx, ap (λ n. (s.pool n).ref_cnt) e, free) in
        record {
          idx = w.idx;
          holds = w.holds;
          in_pool = w.in_pool;
          kind = mark w.idx ∙ rw (==-ne other) w.kind;
          owned = λ q. kept_entry s.kvs i tid c.tid w.idx missing (w.owned q);
        } in
      record {
        counted = λ j. count j ∙ ap (λ n. (if i == j then 1 else 0) + n) (l.counted j);
        placed =
            λ c m. elim m [ inl e ↦ subst (Placed h p s') (sym e) first | inr m' ↦ later c m' ];
        used = λ j q. let more = l.used j in ground (arith, count j, mark j, q, more);
        held = λ t j q. elim (entries t j q) [
          | inl (e, e') ↦ mark j ∙ rw (subst (λ n. (i == n) ≡ true) e' (==_self i)) refl
          | inr old ↦ let m = l.held t j old in ground (arith, mark j, m)
        ];
        single = λ t t' j q q'. elim (entries t j q) [
          | inl (e, at) ↦ elim (entries t' j q') [
            | inl (e', _) ↦ sym e ∙ e'
            | inr old ↦ absurd (unheld t' (old ∙ ap some (sym at)))
          ]
          | inr old ↦ elim (entries t' j q') [
            | inl (_, at) ↦ absurd (unheld t (old ∙ ap some (sym at)))
            | inr old' ↦ l.single t t' j old old'
          ]
        ];
        in_range = l.in_range;
      }
