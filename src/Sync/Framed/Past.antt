-- ===== src/Sync/Framed/Past.antt =====
-- A barrier of src/collectives.c between other calls: once a PE is through, every PE is past its calls before the barrier.
use mathlib.Core.Path.{subst}
use sandia_shmem.Base.{
  ℕ, ◌≡◌, ◌≢◌, refl, sym, ◌∙◌, ◌⊎◌, inl, inr, Bool, true, List, [], ◌∷◌, ◌++◌, Elem, Elem-append,
  if◌then◌else◌,
}
use sandia_shmem.Comm.{Instr, Machine, Runs}
use sandia_shmem.Sync.Ends.{IsBarrier}
use sandia_shmem.Sync.Framed.{Silent, Resets, Place, before, inside, after, Follows, follow}

-- The members are about to run `pre`, a barrier and `post`, the others nothing.
pub record Whole {A : Type 0} (op : A → A → A) (is_member : ℕ → Bool) (slot : ℕ)
    (pre b post : ℕ → List Instr) (m : Machine A) : Type 0 where
  pub prog : (p : ℕ) → m.prog p ≡ (if is_member p then pre p ++ (b p ++ post p) else [])
  pub silent : (p : ℕ) (i : Instr) → Elem i (pre p) → Silent op slot p i
  pub resets : (p : ℕ) (i : Instr) → Elem i (post p) → Resets op slot p i
  pub barrier :
      IsBarrier op is_member slot
        (record { prog = λ p. if is_member p then b p else []; store = m.store })

module _ {A : Type 0} {op : A → A → A} {is_member : ℕ → Bool} {slot : ℕ}
    {pre b post : ℕ → List Instr} {m : Machine A} (w : Whole op is_member slot pre b post m) where
  abbrev pub alone : Machine A
  alone = record { prog = λ p. if is_member p then b p else []; store = m.store }

  pub starts : (p : ℕ) → is_member p ≡ true → alone.prog p ≡ b p
  starts p member = rw member refl

  pub start-Follows : Follows op is_member slot pre b post m alone
  start-Follows = record {
    agree = λ q. refl;
    place = λ p member. before (pre p) (w.prog p ∙ rw member refl) (starts p member) (λ i h. h);
    idle = λ p out. (w.prog p ∙ rw out refl, rw out refl);
  }

  nil_of_append : (xs ys : List Instr) → xs ++ ys ≡ [] → (xs ≡ []) × (ys ≡ [])
  nil_of_append [] ys e = (refl, e)
  nil_of_append (x ∷ xs) ys e = absurd cc

  through :
      (p : ℕ) (outer inner : List Instr)
      → Place op is_member slot pre b post p outer inner
      → outer ≡ []
      → inner ≡ []
  through p outer inner (before l at e sub) done =
      e ∙ (nil_of_append (b p) (post p) (nil_of_append l (b p ++ post p) (sym at ∙ done)).1).0
  through p outer inner (inside l at e sub) done = e ∙ (nil_of_append l (post p) (sym at ∙ done)).0
  through p outer inner (after l at e sub) done = e

  left_over :
      (q : ℕ) (outer inner : List Instr)
      → Place op is_member slot pre b post q outer inner
      → inner ≢ b q
      → (i : Instr) → Elem i outer
      → Elem i (b q) ⊎ Elem i (post q)
  left_over q outer inner (before l at e sub) entered i m = absurd (entered e)
  left_over q outer inner (inside l at e sub) entered i m =
      elim (Elem-append i l (post q) (subst (Elem i) at m)) [
        | inl own ↦ inl (sub i own)
        | inr rest ↦ inr rest
      ]
  left_over q outer inner (after l at e sub) entered i m = inr (sub i (subst (Elem i) at m))

  -- Once a PE is through, every PE has only instructions of the barrier and of `post` left.
  pub all_past :
      {m' : Machine A}
      → Runs op m m'
      → (p : ℕ) → is_member p ≡ true
      → m'.prog p ≡ []
      → (q : ℕ) → is_member q ≡ true
      → (i : Instr) → Elem i (m'.prog q)
      → Elem i (b q) ⊎ Elem i (post q)
  all_past {m'} r p mp done q mq =
      let (n, rn, f) =
        follow op is_member slot pre b post w.silent w.resets w.barrier starts start-Follows r in
      let inner = through p (m'.prog p) (n.prog p) (f.place p mp) done in
      let entered = (w.barrier.safe n rn p mp inner).1 q mq in
      left_over q (m'.prog q) (n.prog q) (f.place q mq) (λ e. entered (e ∙ sym (starts q mq)))
