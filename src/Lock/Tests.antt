-- ===== src/Lock/Tests.antt =====
-- Runs of src/shmem_lock.h on two PEs.
use mathlib.Core.Path.{subst}
use sandia_shmem.Base.{ℕ, ◌≡◌, refl, sym, inl, inr, [], ◌∷◌, arith, ℕ_discrete, ◌⊎◌, ◌≢◌, ◌∙◌}
use sandia_shmem.Comm.{update-ne}
use sandia_shmem.Lock.{
  Lock, Place, idle, held, set_zero, set_swap, link, go, write, set_lock, sets, in_set, Reaches,
  start, later, unlocked,
}
use sandia_shmem.Lock.Queue.{IsOutside, Linked, Queued}
use sandia_shmem.Lock.Changes.{After}
use sandia_shmem.Lock.Order.{step-After, held-exclusive}
use sandia_shmem.Lock.Progress.{Works, lock-progress}

abbrev first_calls : Lock
first_calls = go unlocked 0 set_zero

abbrev first_zeroed : Lock
first_zeroed = go (write first_calls 0 0) 0 set_swap

abbrev first_holds : Lock
first_holds = go (record first_zeroed { last = 1 }) 0 held

abbrev second_calls : Lock
second_calls = go first_holds 1 set_zero

abbrev second_zeroed : Lock
second_zeroed = go (write second_calls 1 0) 1 set_swap

abbrev second_queued : Lock
second_queued = go (record second_zeroed { last = 2 }) 1 (link 1)

holds_reached : Reaches 2 unlocked first_holds
unfolding set_lock
holds_reached =
    later 0 (omega arith)
      (later 0 (omega arith) (later 0 (omega arith) start (sets 0 refl))
        (in_set 0 first_zeroed refl))
      (in_set 0 first_holds refl)

queued_reached : Reaches 2 unlocked second_queued
unfolding set_lock
queued_reached =
    later 1 (omega arith)
      (later 1 (omega arith) (later 1 (omega arith) holds_reached (sets 1 refl))
        (in_set 1 second_zeroed refl))
      (in_set 1 second_queued refl)

abbrev first_pe : ℕ
first_pe = 0

held-exclusive_example : first_pe ≡ first_pe
held-exclusive_example =
    held-exclusive first_holds first_pe first_pe (omega arith) holds_reached refl refl

IsBusy : Place → Type 0
IsBusy idle = ⊥
IsBusy _ = Unit

link_idle : ¬ (link 1 ≡ idle)
unfolding IsBusy
link_idle e = subst IsBusy e tt

lock-progress_example :
    ((r : ℕ) × (second_queued.place r ≡ held)) ⊎ ((r : ℕ) × Works second_queued r)
lock-progress_example = lock-progress second_queued 1 (omega arith) queued_reached link_idle

at_rest : (p : ℕ) → 1 ≢ p → 0 ≢ p → second_zeroed.place p ≡ idle
at_rest p ne_one ne_zero =
    update-ne second_calls.place set_swap ne_one
    ∙ update-ne first_holds.place set_zero ne_one
    ∙ update-ne first_zeroed.place held ne_zero
    ∙ update-ne first_calls.place set_swap ne_zero
    ∙ update-ne unlocked.place set_zero ne_zero

-- PE 0 is in line, PE 1 is about to swap itself in.
zeroed-Queued : Queued 2 second_zeroed (0 ∷ [])
unfolding Linked
zeroed-Queued = record {
  line = (refl, tt, refl);
  distinct = ((λ m. m), tt);
  inside = λ p m. elim m [ inl e ↦ omega (arith, e) | inr none_left ↦ absurd none_left ];
  others = λ p m. elim (ℕ_discrete 1 p) [
    | yes e ↦ subst (λ x. IsOutside (second_zeroed.place x) (second_zeroed.data_of x)) e refl
    | no other ↦
        subst (λ x. IsOutside x (second_zeroed.data_of p))
          (sym (at_rest p other (λ e. m (inl (sym e))))) tt
  ];
}

step-After_example : After 2 1 (0 ∷ []) second_queued
unfolding set_lock
step-After_example =
    step-After second_zeroed 1 second_queued (0 ∷ []) (omega arith) (omega arith) zeroed-Queued
      (in_set 1 second_queued refl)
