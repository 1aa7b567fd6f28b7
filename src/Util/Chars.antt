-- ===== src/Util/Chars.antt =====
-- The characters of a text, and the number of breaks it can have, for `shmem_util_wrap` of src/util.c.
use mathlib.Core.Path.{subst}
use native.Mathlib.Nat.{two-mul, add-mul, mul_comm, lt_of_mul-lt-mul_right, lt-mul-div-succ}
use sandia_shmem.Base.{
  ℕ, zero, suc, dec_lt, ◌+◌, ◌*◌, ◌/◌, ◌<◌, ◌≤◌, ◌≡◌, ◌≢◌, refl, sym, ap, ◌∙◌, ◌⊎◌, inl, inr, List,
  [], ◌∷◌, Option, none, some, ◌==◌, length, arith, Elem, false,
}
use sandia_shmem.Util.{Wrap, Outcome, goes, returns, overflow, out_of_fuel, char_at}

-- No NUL within the text.
abbrev pub IsText : List ℕ → Type 0
IsText text = ¬ Elem 0 text

pub char_at-ne : (text : List ℕ) (i : ℕ) → IsText text → i < length text → char_at text i ≢ 0
unfolding char_at
char_at-ne [] i is l e = omega (arith, l)
char_at-ne (c ∷ cs) zero is l e = is (inl (sym e))
char_at-ne (c ∷ cs) (suc i) is l e = char_at-ne cs i (λ m. is (inr m)) (omega (arith, l)) e

pub char_at-length : (text : List ℕ) → char_at text (length text) ≡ 0
unfolding char_at
char_at-length [] = refl
char_at-length (c ∷ cs) =
    let e : suc (length cs) ≡ length (c ∷ cs) = omega arith in
    subst (λ i. char_at (c ∷ cs) i ≡ 0) e (char_at-length cs)

pub room :
    (n w k line prev : ℕ)
    → 0 < w
    → k * w ≤ line + prev + w
    → line ≤ n
    → prev + w < n
    → k < 2 * (n / w + 1)
room n w k line prev positive count inside more =
    let q = n / w + 1 in
    let full : n < w * q = lt-mul-div-succ n positive in
    let twice : 2 * q * w ≡ w * q + w * q =
      ap (λ x. x * w) (two-mul q) ∙ add-mul q q w ∙ ap (λ x. x + x) (mul_comm q w) in
    lt_of_mul-lt-mul_right w (omega (arith, count, inside, more, full, twice))

pub at_nul :
    (text : List ℕ) (i : ℕ) → IsText text → i ≤ length text → char_at text i ≡ 0 → i ≡ length text
at_nul text i is l e = elim (dec_lt i (length text)) [
  | yes before ↦ absurd (char_at-ne text i is before e)
  | no l' ↦ omega (arith, l, l')
]

pub before_nul :
    (text : List ℕ) (i : ℕ) → i ≤ length text → (char_at text i == 0) ≡ false → i < length text
before_nul text i l more = elim (dec_lt i (length text)) [
  | yes before ↦ before
  | no l' ↦
      let same : length text ≡ i = omega (arith, l, l') in
      let end : char_at text i ≡ 0 = subst (λ j. char_at text j ≡ 0) same (char_at-length text) in
      absurd (ground (arith, more, end))
]

pub Outcome-cases :
    (r : Outcome)
    → ((s : Wrap) × (r ≡ goes s))
      ⊎ (((out : ℕ → ℕ) × (r ≡ returns out)) ⊎ ((r ≡ overflow) ⊎ (r ≡ out_of_fuel)))
Outcome-cases (goes s) = inl (s, refl)
Outcome-cases (returns out) = inr (inl (out, refl))
Outcome-cases overflow = inr (inr (inl refl))
Outcome-cases out_of_fuel = inr (inr (inr refl))

pub Option-cases : {A : Type 0} (r : Option A) → (r ≡ none) ⊎ ((a : A) × (r ≡ some a))
Option-cases none = inl refl
Option-cases (some a) = inr (a, refl)
