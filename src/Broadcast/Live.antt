-- ===== src/Broadcast/Live.antt =====
-- The PEs of `shmem_internal_bcast_linear`, src/collectives.c, do not wait for the data for ever.
use mathlib.Core.Path.{subst}
use sandia_shmem.Base.{
  ℕ, ◌+◌, ◌-◌, ◌*◌, ◌<◌, ◌≤◌, ◌≡◌, ◌≢◌, refl, ap, sym, ◌∙◌, ◌⊎◌, inl, inr, Bool, Bool-cases, true,
  List, [], ◌∷◌, ◌++◌, some, map, Elem, Elem-map, Elem-map_inv, Elem-left, Elem-right, arith,
  length, if◌then◌else◌, ℕ_discrete, ==_iff, ◌==◌,
}
use sandia_shmem.Comm.{
  Instr, Buffer, Store, put, wait, put_data, fence, put_wait, target, eq, ne, update, update_self,
  update-ne, exec, Machine, step, step-first, step-some, taken, Runs, here, next,
}
use sandia_shmem.Comm.Cells.{Runs-Elem}
use sandia_shmem.Sync.Ends.{Calls, taken-length}
use sandia_shmem.Sync.Linear.{in_set, in_set_iff}
use sandia_shmem.Sync.Framed.Live.{Free}
use sandia_shmem.Broadcast.{bcast_linear, bcast_other}
use sandia_shmem.Broadcast.Order.{Spares, Left, Left-Elem, Runs-Left}
use sandia_shmem.Broadcast.Instructions.{others_from_iff, data-Spares, put-Spares}
use sandia_shmem.Broadcast.Kinds.{
  Bcast, top, visited, data_for, closing, late, call_of, Kind, is_data, is_ack, is_calm,
}
use sandia_shmem.Broadcast.Delivered.{root_prog, other_prog, every-Kind}

put_values : {i v p i' v' p' : ℕ} → put i v p ≡ put i' v' p' → v ≡ v'
put_values e = cc

-- What is left of two lists begins in the first or is left of the second.
in_which :
    (early later l : List Instr) (i : Instr)
    → Left (i ∷ l) (early ++ later)
    → Elem i early ⊎ Left (i ∷ l) later
in_which [] later l i left = inr left
in_which (e ∷ early) later l i ([], same) = let c : i ≡ e = cc in inl (inl c)
in_which (e ∷ early) later l i (d ∷ done, same) =
    let c : done ++ (i ∷ l) ≡ early ++ later = cc in
    elim (in_which early later l i (done, c)) [ inl there ↦ inl (inr there) | inr left ↦ inr left ]

module _ {A : Type 0} (op : A → A → A) where
  data-Free : (p q len : ℕ) (from : Buffer) → Free op q (put_data target 0 from 0 len p)
  unfolding exec
  data-Free p q len from st = (_, refl)

  put-Free : (q slot v p : ℕ) → Free op q (put slot v p)
  unfolding exec
  put-Free q slot v p st = (_, refl)

  fence-Free : (q : ℕ) → Free op q fence
  unfolding exec
  fence-Free q st = (_, refl)

  put_wait-Free : (q : ℕ) → Free op q put_wait
  unfolding exec
  put_wait-Free q st = (_, refl)

  put-one :
      (q slot p : ℕ) (s s' : Store A) → exec op q (put slot 1 p) s ≡ some s' → s'.psync p slot ≡ 1
  unfolding exec
  put-one q slot p s s' e = ground (arith, e)

  wait-goes :
      (q slot : ℕ) (s : Store A) → s.psync q slot ≡ 1 → exec op q (wait slot ne 0) s ≡ some s
  unfolding exec
  wait-goes q slot s e = ground (arith, e)

module _ {A : Type 0} (op : A → A → A) (k : Bcast) {m : Machine A} (positive : 0 < k.stride)
    (many : 2 ≤ k.size) (some_len : 0 < k.len)
    (calls : Calls (in_set k.start k.stride k.size) k.slot (call_of k) m) where
  open k use {from, len, start, stride, size, slot, complete}

  no_late_ack : (p : ℕ) → Elem (put slot 1 p) (closing k) → ⊥
  no_late_ack p mem = elim (Bool-cases complete) [
    | inr off ↦ absurd (
        subst
          (λ b.
            Elem (put slot 1 p) (
              if b then wait slot eq (size - 1) ∷ put slot 0 (top k) ∷ wait slot eq 0 ∷ [] else []))
          off mem)
    | inl on ↦
        elim (subst
          (λ b.
            Elem (put slot 1 p) (
              if b then wait slot eq (size - 1) ∷ put slot 0 (top k) ∷ wait slot eq 0 ∷ [] else []))
          on mem) [
            | inl e ↦ cc
            | inr more ↦ elim more [
              | inl e ↦ absurd (omega (arith, put_values e))
              | inr last ↦ elim last [ inl e ↦ cc | inr nothing ↦ nothing ]
            ]
          ]
  ]

  early-Free :
      (i : Instr) → Elem i (put_wait ∷ fence ∷ map (put slot 1) (visited k)) → Free op (top k) i
  early-Free i (inl e) = subst (Free op (top k)) (sym e) (put_wait-Free op (top k))
  early-Free i (inr (inl e)) = subst (Free op (top k)) (sym e) (fence-Free op (top k))
  early-Free i (inr (inr mem)) =
      let (c, e, there) = Elem-map_inv (put slot 1) i (visited k) mem in
      subst (Free op (top k)) (sym e) (put-Free op (top k) slot 1 c)

  data_early-Free : (i : Instr) → Elem i (map (data_for k) (visited k)) → Free op (top k) i
  data_early-Free i mem =
      let (c, e, there) = Elem-map_inv (data_for k) i (visited k) mem in
      subst (Free op (top k)) (sym e) (data-Free op c (top k) len from)

  -- As long as an ack is to come, the root's next instruction can run.
  next-Free :
      {m' : Machine A} (p : ℕ) (i : Instr) (l : List Instr)
      → in_set start stride size (top k) ≡ true
      → Runs op m m'
      → m'.prog (top k) ≡ i ∷ l
      → Elem (put slot 1 p) (i ∷ l)
      → Free op (top k) i
  next-Free {m'} p i l member r at mem =
      let (done, same) = Runs-Left op (top k) r in
      let left : Left (i ∷ l) (map (data_for k) (visited k) ++ late k) = (
        done,
        ap (λ x. done ++ x) (sym at) ∙ same ∙ root_prog op k positive many some_len calls member,
      ) in
      elim (in_which (map (data_for k) (visited k)) (late k) l i left) [
        | inl sooner ↦ data_early-Free i sooner
        | inr rest ↦
            elim (in_which (put_wait ∷ fence ∷ map (put slot 1) (visited k)) (closing k) l i rest) [
              | inl early ↦ early-Free i early
              | inr last ↦
                  absurd (no_late_ack p (Left-Elem (i ∷ l) (closing k) (put slot 1 p) last mem))
            ]
      ]

  module _ (p : ℕ) (mp : in_set start stride size p ≡ true) (not_top : p ≢ top k)
      (mt : in_set start stride size (top k) ≡ true) where
    -- While the PE has not moved, its ack is to come or has come.
    abbrev Coming : Machine A → Type 0
    Coming m' = Elem (put slot 1 p) (m'.prog (top k)) ⊎ (m'.store.psync p slot ≡ 1)

    ack_listed : Elem (put slot 1 p) (m.prog (top k))
    ack_listed =
        let (at, lt, e) = (in_set_iff start stride size p positive).0 mp in
        let there = (others_from_iff size stride start (top k) p).1 (not_top, (at, lt, e)) in
        subst (Elem (put slot 1 p)) (sym (root_prog op k positive many some_len calls mt)) (
          Elem-right (put slot 1 p) (map (data_for k) (visited k)) (late k) (
            inr (
              inr (
                Elem-left (put slot 1 p) (map (put slot 1) (visited k)) (closing k)
                  (Elem-map (put slot 1) p (visited k) there)))))

    step-Coming :
        {a b : Machine A} (q : ℕ) → q ≢ p → Runs op m a → step op q a ≡ some b → Coming a → Coming b
    step-Coming {a} {b} q other r e coming =
        let (j, rest, st, at, ran, to) = step-first op q a b e in
        let first : Elem j (m.prog q) = Runs-Elem op q j r (subst (Elem j) (sym at) (inl refl)) in
        by_kind j rest at ran to (every-Kind op k positive many some_len calls q j first) coming
      where
        arrives :
            {st : Store A} (rest : List Instr) {j : Instr}
            → exec op q j a.store ≡ some st
            → b ≡ record { prog = update a.prog q rest; store = st }
            → j ≡ put slot 1 p
            → Coming b
        arrives {st} rest {j} ran to same = inr (
            ap (λ x. x.store.psync p slot) to
            ∙ put-one op q slot p a.store st (subst (λ x. exec op q x a.store ≡ some st) same ran))

        keep :
            {st : Store A} {rest : List Instr} {j : Instr}
            → a.prog q ≡ j ∷ rest
            → exec op q j a.store ≡ some st
            → b ≡ record { prog = update a.prog q rest; store = st }
            → Spares op q j p slot
            → Coming a
            → Coming b
        keep {st} {rest} {j} at ran to spares (inr one) =
            inr (ap (λ x. x.store.psync p slot) to ∙ spares a.store st ran ∙ one)
        keep {st} {rest} {j} at ran to spares (inl mem) = elim (ℕ_discrete q (top k)) [
          | no elsewhere ↦ inl (
              subst (Elem (put slot 1 p))
                (sym (ap (λ x. x.prog (top k)) to ∙ update-ne a.prog rest elsewhere)) mem)
          | yes it ↦ elim (subst (Elem (put slot 1 p)) (ap a.prog (sym it) ∙ at) mem) [
            | inl now ↦ arrives rest ran to (sym now)
            | inr later ↦ inl (
                subst (Elem (put slot 1 p))
                  (sym (
                    ap (λ x. x.prog (top k)) to
                    ∙ ap (update a.prog q rest) (sym it)
                    ∙ update_self a.prog q rest))
                  later)
          ]
        ]

        by_kind :
            (j : Instr) (rest : List Instr) {st : Store A}
            → a.prog q ≡ j ∷ rest
            → exec op q j a.store ≡ some st
            → b ≡ record { prog = update a.prog q rest; store = st }
            → Kind op k q j
            → Coming a
            → Coming b
        by_kind j rest at ran to (is_data c there it e) coming =
            keep at ran to
              (subst (λ x. Spares op q x p slot) (sym e) (data-Spares op q len c p slot from))
              coming
        by_kind j rest at ran to (is_calm calmly) coming =
            keep at ran to (calmly.spares p (λ e. other (sym e)) not_top) coming
        by_kind j rest at ran to (is_ack c there it e) coming = elim (ℕ_discrete c p) [
          | yes hit ↦ arrives rest ran to (e ∙ ap (put slot 1) hit)
          | no miss ↦
              keep at ran to
                (subst (λ x. Spares op q x p slot) (sym e) (put-Spares op q slot 1 c p miss)) coming
        ]

    Runs-Coming : {m' : Machine A} → Runs op m m' → m'.prog p ≡ m.prog p → Coming m'
    Runs-Coming here same = inl ack_listed
    Runs-Coming {m'} (next {a = a} me r e) same = elim (ℕ_discrete me p) [
      | yes it ↦
          let hit : (me == p) ≡ true = (==_iff _ _).1 it in
          let count : taken p (next me r e) ≡ 1 + taken p r = rw hit (omega arith) in
          absurd (omega (arith, count, taken-length p (next me r e), ap (λ l. length l) same))
      | no other ↦
          let (j, rest, st, at, ran, to) = step-first op me a m' e in
          let still : a.prog p ≡ m.prog p =
            sym (ap (λ x. x.prog p) to ∙ update-ne a.prog rest other) ∙ same in
          step-Coming me other r e (Runs-Coming r still)
    ]

    root_goes :
        {m' : Machine A} (l : List Instr)
        → Runs op m m'
        → m'.prog (top k) ≡ l
        → Elem (put slot 1 p) l
        → (q : ℕ) × (m'' : Machine A) × (step op q m' ≡ some m'')
    root_goes [] r at mem = absurd mem
    root_goes {m'} (i ∷ l) r at mem =
        let (s, runs) = next-Free p i l mt r at mem m'.store in
        (top k, _, step-some op (top k) m' at runs)

    pub goes_on :
        {m' : Machine A}
        → Runs op m m'
        → m'.prog p ≡ m.prog p
        → (q : ℕ) × (m'' : Machine A) × (step op q m' ≡ some m'')
    unfolding bcast_other
    goes_on {m'} r same = elim (Runs-Coming r same) [
      | inl mem ↦ root_goes (m'.prog (top k)) r refl mem
      | inr one ↦ (
        p,
        _,
        step-some op p m' (same ∙ other_prog op k positive many some_len calls p mp not_top)
            (wait-goes op p slot m'.store one),
      )
    ]

-- However the calls of `shmem_internal_bcast_linear` of the PEs of the set are interleaved: while a PE other than the root
-- is still at its first wait, some PE can go on, and no PE runs more instructions than its call has, so the
-- wait ends. The set has two PEs or more and a positive stride, there is something to send, and the
-- counters are 0.
pub bcast_linear-ends :
    {A : Type 0} (op : A → A → A) (from : Buffer) (s d z root len slot : ℕ) (complete : Bool)
    {m m' : Machine A}
    → 0 < d
    → 2 ≤ z
    → root < z
    → 0 < len
    → Calls (in_set s d z) slot (λ p. bcast_linear from len root s d z slot p complete) m
    → (ran : Runs op m m')
    → ((p : ℕ)
        → in_set s d z p ≡ true
        → p ≢ s + root * d
        → m'.prog p ≡ m.prog p
        → (q : ℕ) × (m'' : Machine A) × (step op q m' ≡ some m''))
      × ((p : ℕ) → taken p ran ≤ length (m.prog p))
bcast_linear-ends op from s d z root len slot complete positive many inside some_len calls ran = (
  (λ p mp not_top same.
      goes_on op
        (record {
          from = from;
          len = len;
          root = root;
          start = s;
          stride = d;
          size = z;
          slot = slot;
          complete = complete;
        })
        positive many some_len calls p mp not_top
        ((in_set_iff s d z (s + root * d) positive).1 (root, inside, omega arith)) ran same),
  λ p. omega (arith, taken-length p ran),
)
