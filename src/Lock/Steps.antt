-- ===== src/Lock/Steps.antt =====
-- What the operations of src/shmem_lock.h do to the queue of PEs.
use mathlib.Core.Path.{subst}
use sandia_shmem.Base.{ℕ, ◌≡◌, ◌≢◌, refl, sym, ◌∙◌, inl, inr, List, [], ◌∷◌, Elem, ℕ_discrete}
use sandia_shmem.Comm.{update_self, update-ne}
use sandia_shmem.Lock.{Lock, Place, go}
use sandia_shmem.Lock.Queue.{IsWaiting, IsHead, IsOutside, Line, Queued}
use sandia_shmem.Lock.Links.{Linked-same, Linked-wait}

-- The states agree on all PEs but `me`.
pub record IsAside (me : ℕ) (s t : Lock) : Type 0 where
  pub places : (p : ℕ) → me ≢ p → t.place p ≡ s.place p
  pub words : (p : ℕ) → me ≢ p → t.data_of p ≡ s.data_of p

Line-same :
    (s t : Lock) (q : List ℕ)
    → t.last ≡ s.last
    → ((p : ℕ) → Elem p q → t.data_of p ≡ s.data_of p)
    → ((p : ℕ) → Elem p q → t.place p ≡ s.place p)
    → Line s q
    → Line t q
Line-same s t [] last words places l = last ∙ l
Line-same s t (a ∷ bs) last words places (at, head, l) = (
  last ∙ at,
  subst (λ x. IsHead x (t.data_of a) bs) (sym (places a (inl refl)))
      (subst (λ w. IsHead (s.place a) w bs) (sym (words a (inl refl))) head),
  Linked-same s t a bs words (λ p m. places p (inr m)) l,
)

-- The others outside, of a PE that goes on or leaves.
pub others_same :
    {n : ℕ} (me : ℕ) (s t : Lock) (q : List ℕ)
    → IsAside me s t
    → Queued n s q
    → (p : ℕ) → me ≢ p
    → ¬ Elem p q
    → IsOutside (t.place p) (t.data_of p)
others_same me s t q aside l p other out =
    subst (λ x. IsOutside x (t.data_of p)) (sym (aside.places p other))
      (subst (IsOutside (s.place p)) (sym (aside.words p other)) (l.others p out))

-- A PE that is not in line, and does not join it.
pub stay_outside :
    {n : ℕ} (me : ℕ) (s t : Lock) (q : List ℕ)
    → Queued n s q
    → ¬ Elem me q
    → IsAside me s t
    → t.last ≡ s.last
    → IsOutside (t.place me) (t.data_of me)
    → Queued n t q
stay_outside me s t q l out aside last after =
    let apart : (p : ℕ) → Elem p q → me ≢ p = λ p m e. out (subst (λ x. Elem x q) (sym e) m) in
    record {
      line =
          Line-same s t q last (λ p m. aside.words p (apart p m))
            (λ p m. aside.places p (apart p m)) l.line;
      distinct = l.distinct;
      inside = l.inside;
      others = λ p m. elim (ℕ_discrete me p) [
        | yes e ↦ subst (λ x. IsOutside (t.place x) (t.data_of x)) e after
        | no other ↦ others_same me s t q aside l p other m
      ];
    }

pub go-IsAside : (me : ℕ) (s : Lock) (x : Place) → IsAside me s (go s me x)
go-IsAside me s x = record {
  places = λ p other. update-ne s.place x other;
  words = λ p other. refl;
}

-- The PE at the head goes on.
pub stay_head :
    {n : ℕ} (me : ℕ) (s : Lock) (x : Place) (bs : List ℕ)
    → Queued n s (me ∷ bs)
    → IsHead x (s.data_of me) bs
    → Queued n (go s me x) (me ∷ bs)
stay_head me s x bs l head =
    let aside = go-IsAside me s x in
    let apart : (p : ℕ) → Elem p bs → me ≢ p =
      λ p m e. l.distinct.0 (subst (λ x. Elem x bs) (sym e) m) in
    record {
      line = (
        l.line.0,
        subst (λ x. IsHead x (s.data_of me) bs) (sym (update_self s.place me x)) head,
        Linked-same s (go s me x) me bs (λ p m. refl) (λ p m. aside.places p (apart p m)) l.line.2,
      );
      distinct = l.distinct;
      inside = l.inside;
      others = λ p m. others_same me s (go s me x) (me ∷ bs) aside l p (λ e. m (inl (sym e))) m;
    }

-- A PE that waits for the signal goes on to wait.
pub stay_wait :
    {n : ℕ} (me : ℕ) (s : Lock) (x : Place) (a : ℕ) (bs : List ℕ)
    → Queued n s (a ∷ bs)
    → Elem me bs
    → IsWaiting (s.place me)
    → IsWaiting x
    → Queued n (go s me x) (a ∷ bs)
stay_wait me s x a bs l m was is =
    let aside = go-IsAside me s x in
    let apart : me ≢ a = λ e. l.distinct.0 (subst (λ x. Elem x bs) e m) in
    record {
      line = (
        l.line.0,
        subst (λ y. IsHead y (s.data_of a) bs) (sym (update-ne s.place x apart)) l.line.1,
        Linked-wait s a me x bs was is l.line.2,
      );
      distinct = l.distinct;
      inside = l.inside;
      others = λ p out.
          others_same me s (go s me x) (a ∷ bs) aside l p
            (λ e. out (inr (subst (λ y. Elem y bs) e m))) out;
    }
