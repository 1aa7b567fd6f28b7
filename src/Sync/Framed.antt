-- ===== src/Sync/Framed.antt =====
-- A barrier of src/collectives.c between calls that leave its counter alone and local stores that reset pSyncs:
-- the machine of the barrier alone follows the machine of the whole.
pub mod Past
pub mod Live
use mathlib.Core.Path.{subst}
use sandia_shmem.Base.{
  ℕ, ◌≡◌, ◌≢◌, refl, ap, sym, ◌∙◌, ◌⊎◌, inl, inr, Bool, Bool-cases, true, false, List, [], ◌∷◌,
  ◌++◌, Option, none, some, Elem, arith, ◌==◌, if◌then◌else◌, ℕ_discrete, ==_iff, Elem-append,
}
use sandia_shmem.Comm.{
  Instr, put, add, wait, sub_one, put_data, copy, atomicv, reduce_local, fence, quiet, put_wait,
  compares, Store, set_psync, update, update_self, update-ne, exec, exec-wait, Machine, step,
  step-inv, step-none, step-some, Runs, here, next, Touches,
}
use sandia_shmem.Sync.Ends.{Calls, IsBarrier}

-- The instruction leaves the counter `slot` of every PE as it is, at least when the counter of the PE `me` is 0.
abbrev pub Silent : {A : Type 0} → (A → A → A) → ℕ → ℕ → Instr → Type 0
Silent {A} op slot me i =
    (s s' : Store A) → exec op me i s ≡ some s' → (q : ℕ) → s'.psync q slot ≡ s.psync q slot

abbrev pub Resets : {A : Type 0} → (A → A → A) → ℕ → ℕ → Instr → Type 0
Resets {A} op slot me i =
    (s s' : Store A)
    → s.psync me slot ≡ 0
    → exec op me i s ≡ some s'
    → (q : ℕ) → s'.psync q slot ≡ s.psync q slot

-- An instruction on the counter only acts on it in the same way in two stores that agree on it.
pub exec-Touches :
    {A : Type 0} (op : A → A → A) (me slot : ℕ) (i : Instr) (s s' u : Store A)
    → Touches slot i
    → ((q : ℕ) → u.psync q slot ≡ s.psync q slot)
    → exec op me i s ≡ some s'
    → (u' : Store A) × (exec op me i u ≡ some u') × ((q : ℕ) → u'.psync q slot ≡ s'.psync q slot)
unfolding exec
exec-Touches op me slot (put j v pe) s s' u at same e =
    (_, refl, λ q. let b = same q in ground (arith, at, e, b))
exec-Touches op me slot (add j v pe) s s' u at same e =
    (_, refl, λ q. let b = same q in let c = same pe in ground (arith, at, e, b, c))
exec-Touches op me slot (wait j c v) s s' u at same e =
    let (on, to) = exec-wait op me j c v s s' e in
    let on' : compares c (u.psync me j) v ≡ true =
      ap (λ x. compares c (u.psync me x) v) at
      ∙ ap (λ x. compares c x v) (same me)
      ∙ ap (λ x. compares c (s.psync me x) v) (sym at)
      ∙ on in
    (u, rw on' refl, λ q. same q ∙ ap (λ x. x.psync q slot) (sym to))
exec-Touches op me slot (sub_one j pe) s s' u at same e = absurd at
exec-Touches op me slot (put_data a b c d f g) s s' u at same e = absurd at
exec-Touches op me slot (copy a b c d f) s s' u at same e = absurd at
exec-Touches op me slot (atomicv a b c d) s s' u at same e = absurd at
exec-Touches op me slot (reduce_local a b c d f) s s' u at same e = absurd at
exec-Touches op me slot fence s s' u at same e = absurd at
exec-Touches op me slot quiet s s' u at same e = absurd at
exec-Touches op me slot put_wait s s' u at same e = absurd at

abbrev pub Within : List Instr → List Instr → Type 0
Within l xs = (i : Instr) → Elem i l → Elem i xs

module _ {A : Type 0} (op : A → A → A) (is_member : ℕ → Bool) (slot : ℕ)
    (pre b post : ℕ → List Instr) where
  -- The whole of PE `p` runs its `pre`, its barrier `b` and its `post`; where it is, and where the barrier alone is.
  pub data Place (p : ℕ) (outer inner : List Instr) : Type 0 where
    before :
        (l : List Instr)
        → outer ≡ l ++ (b p ++ post p)
        → inner ≡ b p
        → Within l (pre p)
        → Place p outer inner
    inside :
        (l : List Instr) → outer ≡ l ++ post p → inner ≡ l → Within l (b p) → Place p outer inner
    after : (l : List Instr) → outer ≡ l → inner ≡ [] → Within l (post p) → Place p outer inner

  pub record Follows (m n : Machine A) : Type 0 where
    pub agree : (q : ℕ) → n.store.psync q slot ≡ m.store.psync q slot
    pub place : (p : ℕ) → is_member p ≡ true → Place p (m.prog p) (n.prog p)
    pub idle : (p : ℕ) → is_member p ≡ false → (m.prog p ≡ []) × (n.prog p ≡ [])

  -- One PE has run an instruction of the whole, and maybe one of the barrier.
  move :
      {m m' n n' : Machine A} (me : ℕ) {rest : List Instr} {s : Store A}
      → Follows m n
      → is_member me ≡ true
      → m' ≡ record { prog = update m.prog me rest; store = s }
      → ((q : ℕ) → n'.store.psync q slot ≡ s.psync q slot)
      → ((p : ℕ) → me ≢ p → n'.prog p ≡ n.prog p)
      → Place me rest (n'.prog me)
      → Follows m' n'
  move {m} {m'} {n} {n'} me {rest} {s} f member to agree others here_now = record {
    agree = λ q. agree q ∙ sym (ap (λ x. x.store.psync q slot) to);
    place = λ p mp. elim (ℕ_discrete me p) [
      | yes same ↦
          subst (λ x. Place x (m'.prog x) (n'.prog x)) same
            (subst (λ l. Place me l (n'.prog me))
              (sym (ap (λ x. x.prog me) to ∙ update_self m.prog me rest)) here_now)
      | no other ↦
          let old : m'.prog p ≡ m.prog p = ap (λ x. x.prog p) to ∙ update-ne m.prog rest other in
          subst (λ l. Place p l (n'.prog p)) (sym old)
            (subst (λ l. Place p (m.prog p) l) (sym (others p other)) (f.place p mp))
    ];
    idle = λ p out. elim (ℕ_discrete me p) [
      | yes same ↦ let c : true ≡ false = sym member ∙ ap is_member same ∙ out in cc
      | no other ↦ (
        ap (λ x. x.prog p) to ∙ update-ne m.prog rest other ∙ (f.idle p out).0,
        others p other ∙ (f.idle p out).1,
      )
    ];
  }

  module _ (silent : (p : ℕ) (i : Instr) → Elem i (pre p) → Silent op slot p i)
      (resets : (p : ℕ) (i : Instr) → Elem i (post p) → Resets op slot p i) {n0 : Machine A}
      (barrier : IsBarrier op is_member slot n0)
      (starts : (p : ℕ) → is_member p ≡ true → n0.prog p ≡ b p) where
    abbrev Next : Machine A → Type 0
    Next m' = (n' : Machine A) × Runs op n0 n' × Follows m' n'

    run_before :
        {m m' n : Machine A} (me : ℕ) (i : Instr) (l : List Instr)
        → Runs op n0 n
        → Follows m n
        → is_member me ≡ true
        → step op me m ≡ some m'
        → m.prog me ≡ i ∷ (l ++ (b me ++ post me))
        → n.prog me ≡ b me
        → Within (i ∷ l) (pre me)
        → Next m'
    run_before {m} {m'} {n} me i l r f member e at inner sub =
        let (s, ran, to) = step-inv op me m m' at e in
        (
          n,
          r,
          move me f member to
              (λ q. f.agree q ∙ sym (silent me i (sub i (inl refl)) m.store s ran q))
              (λ p other. refl) (before l refl inner (λ j mem. sub j (inr mem))),
        )

    run_after :
        {m m' n : Machine A} (me : ℕ) (i : Instr) (l : List Instr)
        → Runs op n0 n
        → Follows m n
        → is_member me ≡ true
        → step op me m ≡ some m'
        → m.prog me ≡ i ∷ l
        → n.prog me ≡ []
        → Within (i ∷ l) (post me)
        → Next m'
    run_after {m} {m'} {n} me i l r f member e at inner sub =
        let (s, ran, to) = step-inv op me m m' at e in
        let zero_now = sym (f.agree me) ∙ (barrier.safe n r me member inner).0 in
        (
          n,
          r,
          move me f member to
              (λ q. f.agree q ∙ sym (resets me i (sub i (inl refl)) m.store s zero_now ran q))
              (λ p other. refl) (after l refl inner (λ j mem. sub j (inr mem))),
        )

    run_inside :
        {m m' n : Machine A} (me : ℕ) (i : Instr) (l : List Instr)
        → Runs op n0 n
        → Follows m n
        → is_member me ≡ true
        → step op me m ≡ some m'
        → m.prog me ≡ i ∷ (l ++ post me)
        → n.prog me ≡ i ∷ l
        → Within (i ∷ l) (b me)
        → Next m'
    run_inside {m} {m'} {n} me i l r f member e at inner sub =
        let (s, ran, to) = step-inv op me m m' at e in
        let only =
          barrier.alone me i (subst (Elem i) (sym (starts me member)) (sub i (inl refl))) in
        let (u, ran', same) = exec-Touches op me slot i m.store s n.store only f.agree ran in
        let n' : Machine A = record { prog = update n.prog me l; store = u } in
        (
          n',
          next me r (step-some op me n inner ran'),
          move me f member to same (λ p other. update-ne n.prog l other)
              (inside l refl (update_self n.prog me l) (λ j mem. sub j (inr mem))),
        )

    by_after :
        {m m' n : Machine A} (me : ℕ) (l : List Instr)
        → Runs op n0 n
        → Follows m n
        → is_member me ≡ true
        → step op me m ≡ some m'
        → m.prog me ≡ l
        → n.prog me ≡ []
        → Within l (post me)
        → Next m'
    by_after {m} {m'} me [] r f member e at inner sub =
        let c : none ≡ some m' = sym (step-none op me m at) ∙ e in absurd cc
    by_after me (i ∷ l) r f member e at inner sub = run_after me i l r f member e at inner sub

    by_inside :
        {m m' n : Machine A} (me : ℕ) (l : List Instr)
        → Runs op n0 n
        → Follows m n
        → is_member me ≡ true
        → step op me m ≡ some m'
        → m.prog me ≡ l ++ post me
        → n.prog me ≡ l
        → Within l (b me)
        → Next m'
    by_inside me [] r f member e at inner sub =
        by_after me (post me) r f member e at inner (λ i h. h)
    by_inside me (i ∷ l) r f member e at inner sub = run_inside me i l r f member e at inner sub

    by_place :
        {m m' n : Machine A} (me : ℕ)
        → Runs op n0 n
        → Follows m n
        → is_member me ≡ true
        → step op me m ≡ some m'
        → Place me (m.prog me) (n.prog me)
        → Next m'
    by_place me r f member e (before [] at inner sub) =
        by_inside me (b me) r f member e at inner (λ i h. h)
    by_place me r f member e (before (i ∷ l) at inner sub) =
        run_before me i l r f member e at inner sub
    by_place me r f member e (inside l at inner sub) = by_inside me l r f member e at inner sub
    by_place me r f member e (after l at inner sub) = by_after me l r f member e at inner sub

    pub follow : {m m' : Machine A} → Follows m n0 → Runs op m m' → Next m'
    follow f here = (n0, here, f)
    follow f (next {a} {b = c} me r e) =
        let (n, rn, g) = follow f r in
        elim (Bool-cases (is_member me)) [
          | inl member ↦ by_place me rn g member e (g.place me member)
          | inr out ↦
              let c : none ≡ some c = sym (step-none op me a (g.idle me out).0) ∙ e in absurd cc
        ]
