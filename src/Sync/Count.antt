-- ===== src/Sync/Count.antt =====
-- Counting the entries of a list that pass a test.
use sandia_shmem.Base.{
  ℕ, suc, ◌≤◌, ◌≡◌, ◌≢◌, refl, ap, sym, ◌∙◌, ◌⊎◌, inl, inr, Bool, true, false, List, [], ◌∷◌, Elem,
  IsDistinct, length, arith, ◌==◌, if◌then◌else◌, Bool-cases, ==_iff,
}

abbrev pub count : (ℕ → Bool) → List ℕ → ℕ
count f [] = 0
count f (x ∷ xs) = if f x then suc (count f xs) else count f xs

abbrev pub elem_b : ℕ → List ℕ → Bool
elem_b c [] = false
elem_b c (x ∷ xs) = if c == x then true else elem_b c xs

pub elem_b-Elem : (c : ℕ) (xs : List ℕ) → Elem c xs → elem_b c xs ≡ true
elem_b-Elem c [] m = absurd m
elem_b-Elem c (x ∷ xs) (inl e) = ground arith
elem_b-Elem c (x ∷ xs) (inr m) = ground (arith, elem_b-Elem c xs m)

pub Elem-elem_b : (c : ℕ) (xs : List ℕ) → elem_b c xs ≡ true → Elem c xs
Elem-elem_b c [] e = cc
Elem-elem_b c (x ∷ xs) e = elim (Bool-cases (c == x)) [
  | inl same ↦ inl ((==_iff c x).0 same)
  | inr other ↦ inr (Elem-elem_b c xs (ground arith))
]

pub count-le : (f : ℕ → Bool) (xs : List ℕ) → count f xs ≤ length xs
count-le f [] = omega arith
count-le f (x ∷ xs) = ground (arith, count-le f xs)

pub count-ext :
    (f g : ℕ → Bool) (xs : List ℕ) → ((c : ℕ) → Elem c xs → f c ≡ g c) → count f xs ≡ count g xs
count-ext f g [] same = refl
count-ext f g (x ∷ xs) same =
    let ih : count f xs ≡ count g xs = count-ext f g xs (λ c m. same c (inr m)) in
    let here : f x ≡ g x = same x (inl refl) in rw here (rw ih refl)

-- One more entry passes.
pub count-flip :
    (f g : ℕ → Bool) (p : ℕ) (xs : List ℕ)
    → IsDistinct xs
    → Elem p xs
    → f p ≡ false
    → g p ≡ true
    → ((c : ℕ) → c ≢ p → g c ≡ f c)
    → count g xs ≡ suc (count f xs)
count-flip f g p [] d m off on same = absurd m
count-flip f g p (x ∷ xs) d (inl e) off on same =
    let rest : count g xs ≡ count f xs =
      count-ext g f xs (λ c m. same c (λ q. d.0 (rw (sym e) (rw (sym q) m)))) in
    let gx : g x ≡ true = ap g (sym e) ∙ on in
    let fx : f x ≡ false = ap f (sym e) ∙ off in rw gx (rw fx (ap suc rest))
count-flip f g p (x ∷ xs) d (inr m) off on same =
    let ih = count-flip f g p xs d.1 m off on same in
    let other : x ≢ p = λ q. d.0 (rw q m) in
    let gx : g x ≡ f x = same x other in rw gx (ground (arith, ih))

pub count-full :
    (f : ℕ → Bool) (xs : List ℕ) → count f xs ≡ length xs → (c : ℕ) → Elem c xs → f c ≡ true
count-full f [] e c m = absurd m
count-full f (x ∷ xs) e c (inl q) = rw q (ground (arith, count-le f xs))
count-full f (x ∷ xs) e c (inr m) = count-full f xs (ground (arith, count-le f xs)) c m

pub full-count :
    (f : ℕ → Bool) (xs : List ℕ) → ((c : ℕ) → Elem c xs → f c ≡ true) → count f xs ≡ length xs
full-count f [] h = refl
full-count f (x ∷ xs) h =
    let here : f x ≡ true = h x (inl refl) in
    rw here (ap suc (full-count f xs (λ c m. h c (inr m))))

-- Either all entries pass or one does not.
pub count-cases :
    (f : ℕ → Bool) (xs : List ℕ) → (count f xs ≡ length xs) ⊎ ((c : ℕ) × Elem c xs × (f c ≡ false))
count-cases f [] = inl refl
count-cases f (x ∷ xs) = elim (Bool-cases (f x)) [
  | inr off ↦ inr (x, inl refl, off)
  | inl on ↦ elim (count-cases f xs) [
    | inl full ↦ inl (rw on (ap suc full))
    | inr (c, m, off) ↦ inr (c, inr m, off)
  ]
]
