-- ===== src/BitSet/First.antt =====
-- `shmem_internal_bit_1st_nonzero` of src/shmem_internal.h as a search for the least index in the set.
use sandia_shmem.Base.{
  ℕ, suc, ◌∙◌, ◌+◌, ◌-◌, ◌*◌, ◌/◌, ◌%◌, ◌<◌, ◌≤◌, ◌≡◌, refl, ◌⊎◌, inl, inr, Bool, true, List, [],
  ◌∷◌, arith, length, ◌==◌, ltb, leb, ◌&&◌, if◌then◌else◌, ==_iff, Bool-cases,
}
use sandia_shmem.Base.Byte.{test_bit, all_bits, all_bits_sound}
use sandia_shmem.Base.And.{test_bit-zero}
use sandia_shmem.BitSet.{bit_fetch, first_bit, first_from, bit_1st_nonzero, not_found}
use sandia_shmem.BitSet.Laws.{IsBytes}

-- The inner loop on byte `x`: at most 8; bit `i` is 0 below it and 1 at it.
abbrev first_law : ℕ → ℕ → ℕ → Bool
first_law x i _ =
    let j = first_bit 8 0 x 8 in
    leb j 8 && (if ltb i j then test_bit x i == 0 else if i == j then test_bit x i == 1 else true)

first_table : all_bits first_law ≡ true
unfolding all_bits test_bit first_bit
first_table = refl

first_at : (x i : ℕ) → x < 256 → i < 8 → first_law x i 0 ≡ true
first_at x i h hi = all_bits_sound first_law x i 0 first_table h hi (omega arith)

first_below : (x i : ℕ) → x < 256 → i < 8 → i < first_bit 8 0 x 8 → test_bit x i ≡ 0
first_below x i h hi lt = ground (arith, first_at x i h hi)

first_hit : (x : ℕ) → x < 256 → first_bit 8 0 x 8 < 8 → test_bit x (first_bit 8 0 x 8) ≡ 1
first_hit x h lt = ground (arith, first_at x (first_bit 8 0 x 8) h lt)

first_le : (x : ℕ) → x < 256 → first_bit 8 0 x 8 ≤ 8
first_le x h = ground (arith, first_at x 0 h (omega arith))

bit_fetch-low : (b : ℕ) (ptr : List ℕ) (j : ℕ) → j < 8 → bit_fetch (b ∷ ptr) j ≡ test_bit b j
unfolding bit_fetch
bit_fetch-low b ptr j h =
    let e : j / 8 ≡ 0 = omega arith in let f : j % 8 ≡ j = omega arith in rw (e, f) refl

bit_fetch-high : (b : ℕ) (ptr : List ℕ) (j : ℕ) → bit_fetch (b ∷ ptr) (8 + j) ≡ bit_fetch ptr j
unfolding bit_fetch
bit_fetch-high b ptr j =
    let e : (8 + j) / 8 ≡ suc (j / 8) = omega arith in
    let f : (8 + j) % 8 ≡ j % 8 = omega arith in rw (e, f) refl

-- Index `n` holds the first 1 of the array; or there is none.
pub record IsFirst (ptr : List ℕ) (n : ℕ) : Type 0 where
  pub inside : n < length ptr * 8
  pub hit : bit_fetch ptr n ≡ 1
  pub before : (j : ℕ) → j < n → bit_fetch ptr j ≡ 0

abbrev pub IsEmpty : List ℕ → Type 0
IsEmpty ptr = (j : ℕ) → bit_fetch ptr j ≡ 0

abbrev Found : List ℕ → ℕ → ℕ → Type 0
Found ptr i r = ((r ≡ not_found) × IsEmpty ptr) ⊎ ((n : ℕ) × (r ≡ i * 8 + n) × IsFirst ptr n)

-- What holds of the bits of a byte and of the bytes after it holds of all.
cons_zero :
    (b : ℕ) (ptr : List ℕ) (n : ℕ)
    → ((j : ℕ) → j < 8 → test_bit b j ≡ 0)
    → ((j : ℕ) → j < n → bit_fetch ptr j ≡ 0)
    → (j : ℕ) → j < 8 + n
    → bit_fetch (b ∷ ptr) j ≡ 0
cons_zero b ptr n low high j h = elim (Bool-cases (ltb j 8)) [
  | inl lt ↦ let p : j < 8 = ground arith in rw (bit_fetch-low b ptr j p) (low j p)
  | inr ge ↦
      let e : j ≡ 8 + (j - 8) = ground arith in
      rw e (rw (bit_fetch-high b ptr (j - 8)) (high (j - 8) (ground arith)))
]

bit_fetch-nil : IsEmpty []
unfolding bit_fetch
bit_fetch-nil j = test_bit-zero (j % 8) (omega arith)

-- A byte with no 1 in it comes before the search of the rest.
skip_byte :
    (b : ℕ) (ptr : List ℕ) (i r : ℕ)
    → b < 256
    → first_bit 8 0 b 8 ≡ 8
    → Found ptr (i + 1) r
    → Found (b ∷ ptr) i r
skip_byte b ptr i r h e (inl (q, none_left)) =
    inl (q, λ j. cons_zero b ptr j low (λ k _. none_left k) j (omega arith))
  where
    low : (j : ℕ) → j < 8 → test_bit b j ≡ 0
    low j lt = first_below b j h lt (omega (arith, e))
skip_byte b ptr i r h e (inr (n, q, first)) = inr (
  8 + n,
  omega (arith, q),
  record {
    inside = omega (arith, first.inside);
    hit = bit_fetch-high b ptr n ∙ first.hit;
    before = cons_zero b ptr n low first.before;
  },
)
  where
    low : (j : ℕ) → j < 8 → test_bit b j ≡ 0
    low j lt = first_below b j h lt (omega (arith, e))

stop_byte :
    (b : ℕ) (ptr : List ℕ) (i j : ℕ)
    → b < 256
    → j ≡ first_bit 8 0 b 8
    → j < 8
    → Found (b ∷ ptr) i (i * 8 + j)
stop_byte b ptr i j h e lt = inr (
  j,
  refl,
  record {
    inside = omega arith;
    hit = bit_fetch-low b ptr j lt ∙ rw e (first_hit b h (omega arith));
    before =
        λ k kj. bit_fetch-low b ptr k (omega arith) ∙ first_below b k h (omega arith) (omega arith);
  },
)

first_from-Found : (ptr : List ℕ) (i : ℕ) → IsBytes ptr → Found ptr i (first_from ptr i)
unfolding first_from
first_from-Found [] i v = inl (refl, bit_fetch-nil)
first_from-Found (b ∷ ptr) i v = elim (Bool-cases (first_bit 8 0 b 8 == 8)) [
  | inl miss ↦ rw miss (
      skip_byte b ptr i (first_from ptr (i + 1)) v.0 ((==_iff _ _).0 miss)
        (first_from-Found ptr (i + 1) v.1))
  | inr found ↦
      rw found (stop_byte b ptr i (first_bit 8 0 b 8) v.0 refl (ground (arith, first_le b v.0)))
]

-- On an array of bytes, the search for the first nonzero bit returns (size_t) -1 when every bit is
-- 0, and otherwise the index of a bit that is 1 and lies in the array, every earlier bit being 0.
pub bit_1st_nonzero_lem :
    (ptr : List ℕ)
    → IsBytes ptr
    → ((bit_1st_nonzero ptr ≡ not_found) × IsEmpty ptr) ⊎ IsFirst ptr (bit_1st_nonzero ptr)
unfolding bit_1st_nonzero
bit_1st_nonzero_lem ptr v = elim (first_from-Found ptr 0 v) [
  | inl none_left ↦ inl none_left
  | inr (n, q, first) ↦ let e : first_from ptr 0 ≡ n = omega (arith, q) in inr (rw e first)
]
