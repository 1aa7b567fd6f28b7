-- ===== src/Lock/Leaves.antt =====
-- PEs that leave the queue of the lock of src/shmem_lock.h.
use mathlib.Core.Path.{subst}
use sandia_shmem.Base.{
  ℕ, ◌+◌, ◌-◌, ◌≡◌, ◌≢◌, refl, sym, ap, ◌∙◌, inl, inr, List, [], ◌∷◌, Elem, IsDistinct, arith,
  ℕ_discrete,
}
use sandia_shmem.Comm.{update_self, update-ne}
use sandia_shmem.Lock.{
  Lock, Place, idle, held, set_zero, set_swap, read_signal, test_zero, test_cswap, clear_cswap,
  read_next, link, wait_signal, wait_next, give, next, signal, go, write, swap_signal,
}
use sandia_shmem.Lock.Words.{next-swap_signal, signal-swap_signal}
use sandia_shmem.Lock.Queue.{IsWaiting, IsHead, IsOutside, Linked, Queued, last_of}
use sandia_shmem.Lock.Links.{Linked-same}
use sandia_shmem.Lock.Steps.{IsAside, others_same}

-- The swap of `last` by a PE, which is at `x` after it.
abbrev pub swap_last : ℕ → Lock → Place → Lock
swap_last me s x = go (record s { last = me + 1 }) me x

-- The last PE of a line is in it.
last_of-Elem : (a : ℕ) (bs : List ℕ) → Elem (last_of a bs) (a ∷ bs)
last_of-Elem a [] = inl refl
last_of-Elem a (b ∷ bs) = inr (last_of-Elem b bs)

-- A head that `last` names is alone in line.
pub alone : (me : ℕ) (bs : List ℕ) → IsDistinct (me ∷ bs) → last_of me bs ≡ me → bs ≡ []
alone me [] d e = refl
alone me (b ∷ bs) d e = absurd (d.0 (subst (λ x. Elem x (b ∷ bs)) e (last_of-Elem b bs)))

-- The PE at the head leaves, with no other in line.
pub leave_last :
    {n : ℕ} (me : ℕ) (s : Lock) (bs : List ℕ)
    → Queued n s (me ∷ bs)
    → s.last ≡ me + 1
    → Queued n (go (record s { last = 0 }) me idle) []
leave_last {n} me s bs l at =
    let t = go (record s { last = 0 }) me idle in
    let aside : IsAside me s t = record {
      places = λ p other. update-ne s.place idle other;
      words = λ p other. refl;
    } in
    let only : bs ≡ [] = alone me bs l.distinct (omega (arith, l.line.0, at)) in
    let l' : Queued n s (me ∷ []) = subst (λ b. Queued n s (me ∷ b)) only l in
    record {
      line = refl;
      distinct = tt;
      inside = λ p m. absurd m;
      others = λ p m. elim (ℕ_discrete me p) [
        | yes e ↦
            subst (λ x. IsOutside (t.place x) (t.data_of x)) e
              (subst (λ x. IsOutside x (s.data_of me)) (sym (update_self s.place me idle)) tt)
        | no other ↦
            others_same me s t (me ∷ []) aside l' p other
              (λ m'. elim m' [ inl e ↦ other (sym e) | inr none_left ↦ none_left ])
      ];
    }

-- The signal to a PE.
abbrev pub signalled : Lock → ℕ → ℕ → Lock
signalled s me to = go (write s to (swap_signal (s.data_of to))) me idle

-- The head of the rest of the line once it has the signal.
IsHead-signal : (x : Place) (w : ℕ) (bs : List ℕ) → IsWaiting x → IsHead x (swap_signal w) bs
IsHead-signal read_signal w bs waits = signal-swap_signal w
IsHead-signal (wait_signal old) w bs waits = (signal-swap_signal w, waits)
IsHead-signal idle w bs waits = absurd waits
IsHead-signal held w bs waits = absurd waits
IsHead-signal set_zero w bs waits = absurd waits
IsHead-signal set_swap w bs waits = absurd waits
IsHead-signal test_zero w bs waits = absurd waits
IsHead-signal test_cswap w bs waits = absurd waits
IsHead-signal clear_cswap w bs waits = absurd waits
IsHead-signal read_next w bs waits = absurd waits
IsHead-signal (link _) w bs waits = absurd waits
IsHead-signal (wait_next _) w bs waits = absurd waits
IsHead-signal (give _) w bs waits = absurd waits

Linked-signal :
    (s : Lock) (me b : ℕ) (bs : List ℕ)
    → IsDistinct (me ∷ b ∷ bs)
    → Linked s b bs
    → Linked (signalled s me b) b bs
unfolding Linked
Linked-signal s me b [] d l =
    ap next (update_self s.data_of b _) ∙ next-swap_signal (s.data_of b) ∙ l
Linked-signal s me b (c ∷ bs) d ((off, edge), l) =
    let t = signalled s me b in
    let words : (p : ℕ) → Elem p (c ∷ bs) → t.data_of p ≡ s.data_of p =
      λ p m. update-ne s.data_of _ (λ e. d.1.0 (subst (λ x. Elem x (c ∷ bs)) (sym e) m)) in
    let places : (p : ℕ) → Elem p (c ∷ bs) → t.place p ≡ s.place p =
      λ p m. update-ne s.place idle (λ e. d.0 (inr (subst (λ x. Elem x (c ∷ bs)) (sym e) m))) in
    let word : next (t.data_of b) ≡ next (s.data_of b) =
      ap next (update_self s.data_of b _) ∙ next-swap_signal (s.data_of b) in
    let at_c = places c (inl refl) in
    (
      (
        ap signal (words c (inl refl)) ∙ off,
        elim edge [
          | inl (at, none_yet) ↦ inl (at_c ∙ at, word ∙ none_yet)
          | inr (waits, at) ↦ inr (subst IsWaiting (sym at_c) waits, word ∙ at)
        ],
      ),
      Linked-same s t c bs words (λ p m. places p (inr m)) l,
    )

last_pe :
    (s : Lock) (me to : ℕ) (bs : List ℕ)
    → to ≡ next (s.data_of me)
    → to ≢ 0
    → Linked s me bs
    → (b : ℕ) × (cs : List ℕ) × (bs ≡ (b ∷ cs)) × (to ≡ b + 1) × IsWaiting (s.place b)
unfolding Linked
last_pe s me to [] at some_to l = absurd (some_to (at ∙ l))
last_pe s me to (b ∷ cs) at some_to ((off, inl (_, none_yet)), l) = absurd (some_to (at ∙ none_yet))
last_pe s me to (b ∷ cs) at some_to ((off, inr (waits, e)), l) = (b, cs, refl, at ∙ e, waits)

rest_Linked : (s : Lock) (a b : ℕ) (bs : List ℕ) → Linked s a (b ∷ bs) → Linked s b bs
unfolding Linked
rest_Linked s a b bs l = l.1

-- The PE at the head leaves, and the next one in line has the signal.
leave_pair :
    {n : ℕ} (me b : ℕ) (s : Lock) (bs : List ℕ)
    → Queued n s (me ∷ b ∷ bs)
    → IsWaiting (s.place b)
    → Queued n (signalled s me b) (b ∷ bs)
leave_pair {n} me b s bs l waits =
    let t = signalled s me b in
    let apart : me ≢ b = λ e. l.distinct.0 (inl e) in
    let word : t.data_of b ≡ swap_signal (s.data_of b) = update_self s.data_of b _ in
    let place : t.place b ≡ s.place b = update-ne s.place idle apart in
    record {
      line = (
        l.line.0,
        subst (λ x. IsHead x (t.data_of b) bs) (sym place)
            (subst (λ w. IsHead (s.place b) w bs) (sym word)
              (IsHead-signal (s.place b) (s.data_of b) bs waits)),
        Linked-signal s me b bs l.distinct (rest_Linked s me b bs l.line.2),
      );
      distinct = l.distinct.1;
      inside = λ p m. l.inside p (inr m);
      others = λ p m. elim (ℕ_discrete me p) [
        | yes e ↦
            subst (λ x. IsOutside x (t.data_of p))
              (sym (update_self s.place me idle) ∙ ap t.place e) tt
        | no other ↦
            let far : b ≢ p = λ e. m (inl (sym e)) in
            subst (λ x. IsOutside x (t.data_of p)) (sym (update-ne s.place idle other))
              (subst (IsOutside (s.place p)) (sym (update-ne s.data_of _ far))
                (l.others p (λ m'. elim m' [ inl e ↦ other (sym e) | inr m'' ↦ m m'' ])))
      ];
    }

pub leave_give :
    {n : ℕ} (me to : ℕ) (s : Lock) (bs : List ℕ)
    → Queued n s (me ∷ bs)
    → s.place me ≡ give to
    → Queued n (signalled s me (to - 1)) bs
leave_give {n} me to s bs l at =
    let (e, some_to) = subst (λ x. IsHead x (s.data_of me) bs) at l.line.1 in
    let (b, cs, is, names, waits) = last_pe s me to bs e some_to l.line.2 in
    let same : b ≡ to - 1 = omega (arith, names) in
    subst (Queued n (signalled s me (to - 1))) (sym is) (
      subst (λ x. Queued n (signalled s me x) (b ∷ cs)) same
        (leave_pair me b s cs (subst (λ x. Queued n s (me ∷ x)) is l) waits))
