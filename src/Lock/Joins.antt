-- ===== src/Lock/Joins.antt =====
-- PEs that join the queue of the lock of src/shmem_lock.h, and link themselves to it.
use mathlib.Core.Path.{subst}
use sandia_shmem.Base.{
  ℕ, ◌+◌, ◌-◌, ◌<◌, ◌≡◌, ◌≢◌, refl, sym, ap, ◌∙◌, inl, inr, List, [], ◌∷◌, ◌++◌, Elem, Elem-append,
  Elem-left, Elem-right, IsDistinct-append, arith, ℕ_discrete,
}
use sandia_shmem.Comm.{update_self, update-ne}
use sandia_shmem.Lock.{
  Lock, Place, idle, held, set_zero, set_swap, read_signal, test_zero, test_cswap, clear_cswap,
  read_next, link, wait_signal, wait_next, give, next, signal, go, swap_next, signal_bit,
}
use sandia_shmem.Lock.Words.{signal-swap_next}
use sandia_shmem.Lock.Queue.{IsHead, IsOutside, Edge, Linked, Queued, last_of}
use sandia_shmem.Lock.Links.{Linked-same, Linked-append, Linked-link, last-next, linked_up}
use sandia_shmem.Lock.Steps.{IsAside, others_same}

-- The swap of `last` by a PE, which is at `x` after it.
abbrev pub swap_last : ℕ → Lock → Place → Lock
swap_last me s x = go (record s { last = me + 1 }) me x

swap-IsAside : (me : ℕ) (s : Lock) (x : Place) → IsAside me s (swap_last me s x)
swap-IsAside me s x = record {
  places = λ p other. update-ne s.place x other;
  words = λ p other. refl;
}

-- The first PE in line has the lock.
pub join_first :
    {n : ℕ} (me : ℕ) (s : Lock)
    → Queued n s []
    → me < n
    → s.data_of me ≡ 0
    → Queued n (swap_last me s held) (me ∷ [])
unfolding Linked
join_first me s l small zero_word = record {
  line = (
    refl,
    subst (λ x. IsHead x (s.data_of me) []) (sym (update_self s.place me held)) tt,
    ap next zero_word,
  );
  distinct = ((λ m. m), tt);
  inside = λ p m. elim m [ inl e ↦ omega (arith, e, small) | inr none_left ↦ absurd none_left ];
  others = λ p m.
      others_same me s (swap_last me s held) [] (swap-IsAside me s held) l p (λ e. m (inl (sym e)))
        (λ none_left. none_left);
}

last_of-append : (a me : ℕ) (bs : List ℕ) → last_of a (bs ++ (me ∷ [])) ≡ me
last_of-append a me [] = refl
last_of-append a me (b ∷ bs) = last_of-append b me bs

-- A longer line leaves the head where it is.
IsHead-append : (x : Place) (w c : ℕ) (bs : List ℕ) → IsHead x w bs → IsHead x w (bs ++ (c ∷ []))
IsHead-append read_next w c (b ∷ bs) head = tt
IsHead-append (wait_next old) w c (b ∷ bs) head = head
IsHead-append held w c bs head = tt
IsHead-append clear_cswap w c bs head = tt
IsHead-append (give to) w c bs head = head
IsHead-append read_signal w c bs head = head
IsHead-append (wait_signal old) w c bs head = head
IsHead-append idle w c bs head = absurd head
IsHead-append set_zero w c bs head = absurd head
IsHead-append set_swap w c bs head = absurd head
IsHead-append test_zero w c bs head = absurd head
IsHead-append test_cswap w c bs head = absurd head
IsHead-append (link _) w c bs head = absurd head
IsHead-append read_next w c [] head = absurd head
IsHead-append (wait_next old) w c [] head = absurd head.0

-- A later PE is behind the one that `last` named.
pub join_last :
    {n : ℕ} (me : ℕ) (s : Lock) (a : ℕ) (bs : List ℕ)
    → Queued n s (a ∷ bs)
    → ¬ Elem me (a ∷ bs)
    → me < n
    → s.data_of me ≡ 0
    → Queued n (swap_last me s (link s.last)) ((a ∷ bs) ++ (me ∷ []))
join_last {n} me s a bs l out small zero_word =
    let t = swap_last me s (link s.last) in
    let aside = swap-IsAside me s (link s.last) in
    let apart : (p : ℕ) → Elem p (a ∷ bs) → me ≢ p =
      λ p m e. out (subst (λ x. Elem x (a ∷ bs)) (sym e) m) in
    let place : t.place me ≡ link (last_of a bs + 1) =
      update_self s.place me _ ∙ ap link l.line.0 in
    let links : Linked t a bs =
      Linked-same s t a bs (λ p m. refl) (λ p m. aside.places p (apart p (inr m))) l.line.2 in
    let edge : Edge t (last_of a bs) me =
      (ap signal zero_word, inl (place, last-next s a bs l.line.2)) in
    let head : IsHead (t.place a) (s.data_of a) bs =
      subst (λ x. IsHead x (s.data_of a) bs) (sym (aside.places a (apart a (inl refl)))) l.line.1 in
    record {
      line = (
        ap (λ x. x + 1) (sym (last_of-append a me bs)),
        IsHead-append (t.place a) (s.data_of a) me bs head,
        Linked-append t a me bs links edge (ap next zero_word),
      );
      distinct =
          IsDistinct-append (a ∷ bs) (me ∷ []) l.distinct ((λ m. m), tt)
            (λ c m. λ m'. elim m' [
              | inl e ↦ out (subst (λ x. Elem x (a ∷ bs)) e m)
              | inr none_left ↦ none_left
            ]);
      inside = λ p m. elim (Elem-append p (a ∷ bs) (me ∷ []) m) [
        | inl old ↦ l.inside p old
        | inr (inl e) ↦ omega (arith, e, small)
        | inr (inr none_left) ↦ absurd none_left
      ];
      others = λ p m.
          others_same me s t (a ∷ bs) aside l p
            (λ e. m (Elem-right p (a ∷ bs) (me ∷ []) (inl (sym e))))
            (λ m'. m (Elem-left p (a ∷ bs) (me ∷ []) m'));
    }

-- The write of a link leaves the head where it is.
IsHead-swap_next :
    (x : Place) (w v : ℕ) (bs : List ℕ) → next w ≡ 0 → IsHead x w bs → IsHead x (swap_next w v) bs
IsHead-swap_next read_next w v bs none_yet head = head
IsHead-swap_next (wait_next old) w v bs none_yet head = head
IsHead-swap_next held w v bs none_yet head = tt
IsHead-swap_next clear_cswap w v bs none_yet head = tt
IsHead-swap_next (give to) w v bs none_yet head = absurd (head.1 (head.0 ∙ none_yet))
IsHead-swap_next read_signal w v bs none_yet head = signal-swap_next w v ∙ head
IsHead-swap_next (wait_signal old) w v bs none_yet head = (signal-swap_next w v ∙ head.0, head.1)
IsHead-swap_next idle w v bs none_yet head = absurd head
IsHead-swap_next set_zero w v bs none_yet head = absurd head
IsHead-swap_next set_swap w v bs none_yet head = absurd head
IsHead-swap_next test_zero w v bs none_yet head = absurd head
IsHead-swap_next test_cswap w v bs none_yet head = absurd head
IsHead-swap_next (link _) w v bs none_yet head = absurd head

-- A PE in line links itself to the PE before it.
pub stay_link :
    {n : ℕ} (me curr : ℕ) (s : Lock) (a : ℕ) (bs : List ℕ)
    → n < signal_bit
    → Queued n s (a ∷ bs)
    → Elem me bs
    → s.place me ≡ link curr
    → Queued n (linked_up s (curr - 1) me) (a ∷ bs)
stay_link {n} me curr s a bs small l m at =
    let (prev, to, mem, none_yet, ne, links) =
      Linked-link s a me curr bs (omega (arith, small, l.inside me (inr m))) l.distinct l.line.2 m
        at in
    let same : prev ≡ curr - 1 = omega (arith, to) in
    let t = linked_up s prev me in
    let apart : me ≢ a = λ e. l.distinct.0 (subst (λ x. Elem x bs) e m) in
    let word : IsHead (s.place a) (t.data_of a) bs = elim (ℕ_discrete prev a) [
      | yes e ↦
          subst (λ w. IsHead (s.place a) w bs) (sym (update_self s.data_of prev _) ∙ ap t.data_of e)
            (IsHead-swap_next (s.place a) (s.data_of prev) (me + 1) bs none_yet
              (subst (λ x. IsHead (s.place a) (s.data_of x) bs) (sym e) l.line.1))
      | no e ↦ subst (λ w. IsHead (s.place a) w bs) (sym (update-ne s.data_of _ e)) l.line.1
    ] in
    subst (λ x. Queued n (linked_up s x me) (a ∷ bs)) same
      (record {
        line = (
          l.line.0,
          subst (λ x. IsHead x (t.data_of a) bs) (sym (update-ne s.place read_signal apart)) word,
          links,
        );
        distinct = l.distinct;
        inside = l.inside;
        others = λ p out.
            let other : me ≢ p = λ e. out (inr (subst (λ y. Elem y bs) e m)) in
            let behind : prev ≢ p = λ e. out (subst (λ y. Elem y (a ∷ bs)) e mem) in
            subst (λ x. IsOutside x (t.data_of p)) (sym (update-ne s.place read_signal other))
              (subst (IsOutside (s.place p)) (sym (update-ne s.data_of _ behind)) (l.others p out));
      })
