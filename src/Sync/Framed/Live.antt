-- ===== src/Sync/Framed/Live.antt =====
-- A barrier of src/collectives.c between calls that do not wait: the whole is never stuck.
use mathlib.Core.Path.{subst}
use sandia_shmem.Base.{
  ℕ, ◌≡◌, ◌≢◌, refl, ap, sym, ◌∙◌, inl, inr, Bool, Bool-cases, true, List, [], ◌∷◌, ◌++◌, some,
  Elem,
}
use sandia_shmem.Comm.{Instr, Store, exec, Machine, step, step-some, step-first, Runs}
use sandia_shmem.Sync.Framed.{exec-Touches, Within, Place, before, inside, after, Follows, follow}
use sandia_shmem.Sync.Framed.Past.{Whole, alone, starts, start-Follows}

-- The instruction can run in every store.
abbrev pub Free : {A : Type 0} → (A → A → A) → ℕ → Instr → Type 0
Free {A} op p i = (s : Store A) → (s' : Store A) × (exec op p i s ≡ some s')

module _ {A : Type 0} {op : A → A → A} {is_member : ℕ → Bool} {slot : ℕ}
    {pre b post : ℕ → List Instr} {m : Machine A} (w : Whole op is_member slot pre b post m)
    (free_pre : (p : ℕ) (i : Instr) → Elem i (pre p) → Free op p i)
    (free_post : (p : ℕ) (i : Instr) → Elem i (post p) → Free op p i) where
  abbrev CanGoOn : Machine A → Type 0
  CanGoOn m' = (q : ℕ) × (m'' : Machine A) × (step op q m' ≡ some m'')

  can_move :
      (m' : Machine A) (q : ℕ) (i : Instr) (l : List Instr)
      → m'.prog q ≡ i ∷ l
      → Free op q i
      → CanGoOn m'
  can_move m' q i l at free = let (s, runs) = free m'.store in (q, _, step-some op q m' at runs)

  module _ {m' n : Machine A} (f : Follows op is_member slot pre b post m' n) where
    -- What the barrier alone runs, the whole can run.
    mirror :
        (q : ℕ) (i : Instr) (l rest : List Instr) (s : Store A)
        → is_member q ≡ true
        → Elem i (b q)
        → m'.prog q ≡ (i ∷ l) ++ rest
        → exec op q i n.store ≡ some s
        → CanGoOn m'
    mirror q i l rest s member own at runs =
        let only = w.barrier.alone q i (subst (Elem i) (sym (starts w q member)) own) in
        let (u, runs', _) =
          exec-Touches op q slot i n.store s m'.store only (λ p. sym (f.agree p)) runs in
        (q, _, step-some op q m' at runs')

    mirrored :
        (q : ℕ) (i : Instr) (rest : List Instr) (s : Store A)
        → is_member q ≡ true
        → n.prog q ≡ i ∷ rest
        → exec op q i n.store ≡ some s
        → Place op is_member slot pre b post q (m'.prog q) (n.prog q)
        → CanGoOn m'
    mirrored q i rest s member first runs (before [] at inner sub) =
        let list : b q ≡ i ∷ rest = sym inner ∙ first in
        mirror q i rest (post q) s member (subst (Elem i) (sym list) (inl refl))
          (at ∙ ap (λ x. x ++ post q) list) runs
    mirrored q i rest s member first runs (before (j ∷ l) at inner sub) =
        can_move m' q j (l ++ (b q ++ post q)) at (free_pre q j (sub j (inl refl)))
    mirrored q i rest s member first runs (inside l at inner sub) =
        let list : l ≡ i ∷ rest = sym inner ∙ first in
        mirror q i rest (post q) s member (sub i (subst (Elem i) (sym list) (inl refl)))
          (at ∙ ap (λ x. x ++ post q) list) runs
    mirrored q i rest s member first runs (after l at inner sub) =
        absurd (subst (Elem i) (sym first ∙ inner) (inl refl))

    barrier_moves : Runs op (alone w) n → (p : ℕ) → is_member p ≡ true → n.prog p ≢ [] → CanGoOn m'
    barrier_moves rn p mp left =
        let (q, n', e) = w.barrier.live n rn p mp left in
        let (i, rest, s, first, runs, to) = step-first op q n n' e in
        elim (Bool-cases (is_member q)) [
          | inl mq ↦ mirrored q i rest s mq first runs (f.place q mq)
          | inr out ↦ absurd (subst (Elem i) (sym first ∙ (f.idle q out).1) (inl refl))
        ]

    after_moves :
        (p : ℕ) (l : List Instr) → m'.prog p ≡ l → Within l (post p) → m'.prog p ≢ [] → CanGoOn m'
    after_moves p [] at sub left = absurd (left at)
    after_moves p (i ∷ l) at sub left = can_move m' p i l at (free_post p i (sub i (inl refl)))

    inside_moves :
        Runs op (alone w) n
        → (p : ℕ) (l : List Instr) → is_member p ≡ true
        → m'.prog p ≡ l ++ post p
        → n.prog p ≡ l
        → m'.prog p ≢ []
        → CanGoOn m'
    inside_moves rn p [] mp at inner left = after_moves p (post p) at (λ i h. h) left
    inside_moves rn p (i ∷ l) mp at inner left =
        barrier_moves rn p mp (λ e. subst (Elem i) (sym inner ∙ e) (inl refl))

    place_moves :
        Runs op (alone w) n
        → (p : ℕ) → is_member p ≡ true
        → Place op is_member slot pre b post p (m'.prog p) (n.prog p)
        → m'.prog p ≢ []
        → CanGoOn m'
    place_moves rn p mp (before [] at inner sub) left = inside_moves rn p (b p) mp at inner left
    place_moves rn p mp (before (i ∷ l) at inner sub) left =
        can_move m' p i (l ++ (b p ++ post p)) at (free_pre p i (sub i (inl refl)))
    place_moves rn p mp (inside l at inner sub) left = inside_moves rn p l mp at inner left
    place_moves rn p mp (after l at inner sub) left = after_moves p l at sub left

  -- While a member has something left to do, some PE can go on.
  pub somebody_moves :
      {m' : Machine A}
      → Runs op m m'
      → (p : ℕ) → is_member p ≡ true
      → m'.prog p ≢ []
      → (q : ℕ) × (m'' : Machine A) × (step op q m' ≡ some m'')
  somebody_moves r p mp left =
      let (n, rn, f) =
        follow op is_member slot pre b post w.silent w.resets w.barrier (starts w) (start-Follows w)
          r in
      place_moves f rn p mp (f.place p mp) left
