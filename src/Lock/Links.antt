-- ===== src/Lock/Links.antt =====
-- What the operations on the words of the lock of src/shmem_lock.h do to the links between PEs.
use mathlib.Core.Path.{subst}
use sandia_shmem.Base.{
  ℕ, ◌+◌, ◌<◌, ◌≡◌, ◌≢◌, refl, sym, ap, ◌∙◌, inl, inr, List, [], ◌∷◌, ◌++◌, Elem, IsDistinct,
  ℕ_discrete,
}
use sandia_shmem.Comm.{update, update_self, update-ne}
use sandia_shmem.Lock.{
  Lock, Place, link, read_signal, next, signal, go, write, swap_next, signal_bit,
}
use sandia_shmem.Lock.Words.{next-swap_next, signal-swap_next}
use sandia_shmem.Lock.Queue.{IsWaiting, Edge, Linked, last_of}

pub Linked-same :
    (s t : Lock) (a : ℕ) (bs : List ℕ)
    → ((p : ℕ) → Elem p (a ∷ bs) → t.data_of p ≡ s.data_of p)
    → ((p : ℕ) → Elem p bs → t.place p ≡ s.place p)
    → Linked s a bs
    → Linked t a bs
unfolding Linked
Linked-same s t a [] words places l = ap next (words a (inl refl)) ∙ l
Linked-same s t a (b ∷ bs) words places ((off, edge), l) = (
  (
    ap signal (words b (inr (inl refl))) ∙ off,
    elim edge [
      | inl (at, none_yet) ↦ inl (places b (inl refl) ∙ at, ap next (words a (inl refl)) ∙ none_yet)
      | inr (waits, at) ↦
          inr (subst IsWaiting (sym (places b (inl refl))) waits, ap next (words a (inl refl)) ∙ at)
    ],
  ),
  Linked-same s t b bs (λ p m. words p (inr m)) (λ p m. places p (inr m)) l,
)

pub last-next :
    (s : Lock) (a : ℕ) (bs : List ℕ) → Linked s a bs → next (s.data_of (last_of a bs)) ≡ 0
unfolding Linked
last-next s a [] l = l
last-next s a (b ∷ bs) (_, l) = last-next s b bs l

-- One more PE at the end.
pub Linked-append :
    (s : Lock) (a c : ℕ) (bs : List ℕ)
    → Linked s a bs
    → Edge s (last_of a bs) c
    → next (s.data_of c) ≡ 0
    → Linked s a (bs ++ (c ∷ []))
unfolding Linked
Linked-append s a c [] l edge end = (edge, end)
Linked-append s a c (b ∷ bs) (first, l) edge end = (first, Linked-append s b c bs l edge end)

-- A PE that waits for the signal goes on to wait.
pub Linked-wait :
    (s : Lock) (a me : ℕ) (x : Place) (bs : List ℕ)
    → IsWaiting (s.place me)
    → IsWaiting x
    → Linked s a bs
    → Linked (go s me x) a bs
unfolding Linked
Linked-wait s a me x [] was is l = l
Linked-wait s a me x (b ∷ bs) was is ((off, edge), l) = (
  (
    off,
    elim (ℕ_discrete me b) [
      | yes same ↦ elim edge [
        | inl (at, none_yet) ↦ absurd (subst IsWaiting (ap s.place same ∙ at) was)
        | inr (waits, at) ↦ inr (
          subst IsWaiting (sym (update_self s.place me x) ∙ ap (update s.place me x) same) is,
          at,
        )
      ]
      | no other ↦
          let kept = update-ne s.place x other in
          elim edge [
            | inl (at, none_yet) ↦ inl (kept ∙ at, none_yet)
            | inr (waits, at) ↦ inr (subst IsWaiting (sym kept) waits, at)
          ]
    ],
  ),
  Linked-wait s b me x bs was is l,
)

-- The write of a PE's link to the PE before it.
abbrev pub linked_up : Lock → ℕ → ℕ → Lock
linked_up s a me = go (write s a (swap_next (s.data_of a) (me + 1))) me read_signal

link-injective : {x y : ℕ} → link x ≡ link y → x ≡ y
link-injective e = cc

Linked-first :
    (s : Lock) (a b : ℕ) (bs : List ℕ)
    → b + 1 < signal_bit
    → IsDistinct (a ∷ b ∷ bs)
    → signal (s.data_of b) ≡ 0
    → Linked s b bs
    → Linked (linked_up s a b) a (b ∷ bs)
unfolding Linked
Linked-first s a b bs small d off l =
    let t = linked_up s a b in
    let word : t.data_of a ≡ swap_next (s.data_of a) (b + 1) = update_self s.data_of a _ in
    let kept : (p : ℕ) → Elem p (b ∷ bs) → t.data_of p ≡ s.data_of p =
      λ p m. update-ne s.data_of _ (λ e. d.0 (subst (λ x. Elem x (b ∷ bs)) (sym e) m)) in
    let places : (p : ℕ) → Elem p bs → t.place p ≡ s.place p =
      λ p m. update-ne s.place _ (λ e. d.1.0 (subst (λ x. Elem x bs) (sym e) m)) in
    (
      (
        ap signal (kept b (inl refl)) ∙ off,
        inr (
          subst IsWaiting (sym (update_self s.place b read_signal)) tt,
          ap next word ∙ next-swap_next (s.data_of a) (b + 1) small,
        ),
      ),
      Linked-same s t b bs kept places l,
    )

-- The write of a link leaves the other edges.
Edge-kept :
    (s : Lock) (a b me prev : ℕ) → me ≢ b → prev ≢ a → Edge s a b → Edge (linked_up s prev me) a b
Edge-kept s a b me prev other apart (off, edge) =
    let t = linked_up s prev me in
    let place : t.place b ≡ s.place b = update-ne s.place read_signal other in
    let word : t.data_of a ≡ s.data_of a = update-ne s.data_of _ apart in
    let sign : signal (t.data_of b) ≡ signal (s.data_of b) = elim (ℕ_discrete prev b) [
      | yes same ↦
          ap (λ x. signal (t.data_of x)) (sym same)
          ∙ ap signal (update_self s.data_of prev _)
          ∙ signal-swap_next (s.data_of prev) (me + 1)
          ∙ ap (λ x. signal (s.data_of x)) same
      | no ne ↦ ap signal (update-ne s.data_of _ ne)
    ] in
    (
      sign ∙ off,
      elim edge [
        | inl (at, none_yet) ↦ inl (place ∙ at, ap next word ∙ none_yet)
        | inr (waits, at) ↦ inr (subst IsWaiting (sym place) waits, ap next word ∙ at)
      ],
    )

-- A PE in line that has yet to make its link is behind the PE that its local variable names, and the write of
-- the link keeps the PEs in line.
pub Linked-link :
    (s : Lock) (a me curr : ℕ) (bs : List ℕ)
    → me + 1 < signal_bit
    → IsDistinct (a ∷ bs)
    → Linked s a bs
    → Elem me bs
    → s.place me ≡ link curr
    → (prev : ℕ) × (curr ≡ prev + 1)
      × Elem prev (a ∷ bs)
      × (next (s.data_of prev) ≡ 0)
      × (prev ≢ me)
      × Linked (linked_up s prev me) a bs
unfolding Linked
Linked-link s a me curr [] small d l m at = absurd m
Linked-link s a me curr (b ∷ bs) small d ((off, edge), l) m at = elim (ℕ_discrete me b) [
  | yes same ↦ elim edge [
    | inl (to, none_yet) ↦ (
      a,
      link-injective (sym at ∙ ap s.place same ∙ to),
      inl refl,
      none_yet,
      (λ e. d.0 (inl (e ∙ same))),
      subst (λ x. Linked (linked_up s a x) a (b ∷ bs)) (sym same)
          (Linked-first s a b bs (subst (λ x. x + 1 < signal_bit) same small) d off l),
    )
    | inr (waits, _) ↦ absurd (subst IsWaiting (sym (ap s.place same) ∙ at) waits)
  ]
  | no other ↦
      let after = elim m as (λ _. Elem me bs) [ inl e ↦ absurd (other e) | inr m' ↦ m' ] in
      let (prev, to, mem, none_yet, ne, l') = Linked-link s b me curr bs small d.1 l after at in
      (
        prev,
        to,
        inr mem,
        none_yet,
        ne,
        (
          Edge-kept s a b me prev other (λ e. d.0 (subst (λ x. Elem x (b ∷ bs)) e mem)) (off, edge),
          l',
        ),
      )
]
