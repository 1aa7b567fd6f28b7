-- ===== src/Lock/Changes.antt =====
-- What a step of the lock of src/shmem_lock.h may do to the queue.
use mathlib.Core.Path.{subst}
use sandia_shmem.Base.{
  ℕ, ◌≡◌, refl, sym, ◌∙◌, inl, inr, List, [], ◌∷◌, ◌++◌, Elem, some, none, ◌==◌, if◌then◌else◌,
  Bool-cases, none_some, some-injective,
}
use sandia_shmem.Comm.{update_self, update-ne}
use sandia_shmem.Lock.{Lock, Place, go, write}
use sandia_shmem.Lock.Queue.{IsOutside, Queued}
use sandia_shmem.Lock.Steps.{IsAside, go-IsAside, stay_outside}

-- What a step of `me` does to a queue of PEs: nothing, `me` joins it at the end, or `me` leaves it at the head.
pub data Change (me : ℕ) : List ℕ → List ℕ → Type 0 where
  stays : {q : List ℕ} → Change me q q
  joins : {q : List ℕ} → Change me q (q ++ (me ∷ []))
  leaves : {q : List ℕ} → Change me (me ∷ q) q

-- The queue after a step.
pub record After (n me : ℕ) (q : List ℕ) (t : Lock) : Type 0 where
  pub line : List ℕ
  pub queued : Queued n t line
  pub change : Change me q line

abbrev pub kept : {n me : ℕ} {q : List ℕ} {t : Lock} → Queued n t q → After n me q t
kept l = record { line = _; queued = l; change = stays }

pub zero-After :
    {n : ℕ} (me : ℕ) (s : Lock) (q : List ℕ) (x : Place)
    → Queued n s q
    → ¬ Elem me q
    → IsOutside x 0
    → Queued n (go (write s me 0) me x) q
zero-After me s q x l m after =
    let t = go (write s me 0) me x in
    let aside : IsAside me s t = record {
      places = λ p other. update-ne s.place x other;
      words = λ p other. update-ne s.data_of 0 other;
    } in
    stay_outside me s t q l m aside refl (
      subst (λ y. IsOutside y (t.data_of me)) (sym (update_self s.place me x))
        (subst (IsOutside x) (sym (update_self s.data_of me 0)) after))

pub go-After :
    {n : ℕ} (me : ℕ) (s : Lock) (q : List ℕ) (x : Place)
    → Queued n s q
    → ¬ Elem me q
    → IsOutside x (s.data_of me)
    → Queued n (go s me x) q
go-After me s q x l m after =
    stay_outside me s (go s me x) q l m (go-IsAside me s x) refl
      (subst (λ y. IsOutside y (s.data_of me)) (sym (update_self s.place me x)) after)

-- The end of a wait.
pub woken :
    {n : ℕ} (me : ℕ) (s : Lock) (y : Place) (old : ℕ) (q : List ℕ) (t : Lock)
    → (if s.data_of me == old then none else some (go s me y)) ≡ some t
    → Queued n (go s me y) q
    → After n me q t
woken {n} me s y old q t e l = elim (Bool-cases (s.data_of me == old)) [
  | inl same ↦ none_some (rw same refl) e
  | inr other ↦
      let runs : (if s.data_of me == old then none else some (go s me y)) ≡ some (go s me y) =
        rw other refl in
      subst (After n me q) (some-injective (sym runs ∙ e)) (kept l)
]
