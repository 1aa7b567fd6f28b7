-- ===== src/Team/Reduce/Laws.antt =====
-- The reduction with SHM_INTERNAL_BAND of src/shmem_team.c as an intersection of bit sets.
use Prim.Native.Nat.{bit_and, min}
use sandia_shmem.Base.{
  ℕ, zero, suc, ◌+◌, ◌*◌, ◌-◌, ◌/◌, ◌%◌, ◌≤◌, ◌≡◌, refl, ap, ◌∙◌, List, [], ◌∷◌, arith, length,
  get_or, dec_lt,
}
use sandia_shmem.Base.And.{bit_and-le, test_bit-bit_and}
use sandia_shmem.BitSet.{bit_fetch}
use sandia_shmem.BitSet.Laws.{IsBytes, get_or-IsBytes, bit_fetch-le_one}
use sandia_shmem.Team.Reduce.{fold_set, band, reduce_band}

band-IsBytes : (xs ys : List ℕ) → IsBytes xs → IsBytes (band xs ys)
unfolding band
band-IsBytes [] ys v = tt
band-IsBytes (x ∷ xs) [] v = tt
band-IsBytes (x ∷ xs) (y ∷ ys) v = (omega (arith, bit_and-le x y), band-IsBytes xs ys v.1)

length-band : (xs ys : List ℕ) → length xs ≡ length ys → length (band xs ys) ≡ length xs
unfolding band
length-band [] ys h = refl
length-band (x ∷ xs) [] h = absurd (omega arith)
length-band (x ∷ xs) (y ∷ ys) h = ap suc (length-band xs ys (omega arith))

get_or-band :
    (xs ys : List ℕ) (i : ℕ)
    → length xs ≡ length ys
    → get_or (band xs ys) i 0 ≡ bit_and (get_or xs i 0) (get_or ys i 0)
unfolding band
get_or-band [] [] i h = refl
get_or-band [] (y ∷ ys) i h = absurd (omega arith)
get_or-band (x ∷ xs) [] i h = absurd (omega arith)
get_or-band (x ∷ xs) (y ∷ ys) zero h = refl
get_or-band (x ∷ xs) (y ∷ ys) (suc i) h = get_or-band xs ys i (omega arith)

bit_fetch-band :
    (xs ys : List ℕ) (j : ℕ)
    → IsBytes xs
    → IsBytes ys
    → length xs ≡ length ys
    → bit_fetch (band xs ys) j ≡ min (bit_fetch xs j) (bit_fetch ys j)
unfolding bit_fetch
bit_fetch-band xs ys j vx vy h = rw (get_or-band xs ys (j / 8) h) (
    test_bit-bit_and (get_or xs (j / 8) 0) (get_or ys (j / 8) 0) (j % 8)
      (get_or-IsBytes xs (j / 8) vx) (get_or-IsBytes ys (j / 8) vy) (omega arith))

-- An array of `width` bytes.
pub record IsArray (width : ℕ) (xs : List ℕ) : Type 0 where
  pub bytes : IsBytes xs
  pub wide : length xs ≡ width

-- The reduction of the members 0, …, n: an array again, with just the bits that all members have.
pub record IsMeet (width : ℕ) (value : ℕ → List ℕ) (n : ℕ) (r : List ℕ) : Type 0 where
  pub array : IsArray width r
  pub lower : (j : ℕ) → bit_fetch r j ≡ 1 → (i : ℕ) → i ≤ n → bit_fetch (value i) j ≡ 1
  pub greatest : (j : ℕ) → ((i : ℕ) → i ≤ n → bit_fetch (value i) j ≡ 1) → bit_fetch r j ≡ 1

IsMeet-suc :
    (width : ℕ) (value : ℕ → List ℕ) (n : ℕ) (r : List ℕ)
    → IsMeet width value n r
    → IsArray width (value (suc n))
    → IsMeet width value (suc n) (band r (value (suc n)))
IsMeet-suc width value n r meet next = record {
  array = record {
    bytes = band-IsBytes r (value (suc n)) meet.array.bytes;
    wide = length-band r (value (suc n)) same ∙ meet.array.wide;
  };
  lower = λ j e i le. elim (dec_lt i (suc n)) [
    | yes lt ↦ meet.lower j (omega (arith, both j, meet_le j, next_le j)) i (omega arith)
    | no ge ↦
        let last : i ≡ suc n = omega arith in rw last (omega (arith, both j, meet_le j, next_le j))
  ];
  greatest = λ j every.
      omega (
        arith,
        both j,
        meet.greatest j (λ i le. every i (omega arith)),
        every (suc n) (omega arith),
      );
}
  where
    same : length r ≡ length (value (suc n))
    same = omega (arith, meet.array.wide, next.wide)

    both :
        (j : ℕ)
        → bit_fetch (band r (value (suc n))) j ≡ min (bit_fetch r j) (bit_fetch (value (suc n)) j)
    both j = bit_fetch-band r (value (suc n)) j meet.array.bytes next.bytes same

    meet_le : (j : ℕ) → bit_fetch r j ≤ 1
    meet_le j = bit_fetch-le_one r j meet.array.bytes

    next_le : (j : ℕ) → bit_fetch (value (suc n)) j ≤ 1
    next_le j = bit_fetch-le_one (value (suc n)) j next.bytes

fold_band-IsMeet :
    (width : ℕ) (value : ℕ → List ℕ)
    → ((i : ℕ) → IsArray width (value i))
    → (n : ℕ) → IsMeet width value n (fold_set band value n)
unfolding fold_set
fold_band-IsMeet width value all zero = record {
  array = all 0;
  lower = λ j e i le. let z : i ≡ 0 = omega arith in rw z e;
  greatest = λ j every. every 0 (omega arith);
}
fold_band-IsMeet width value all (suc n) =
    IsMeet-suc width value n (fold_set band value n) (fold_band-IsMeet width value all n)
      (all (suc n))

-- The reduction over an active set of arrays of one width is an array of that width, and holds just
-- the bits that are set on every PE of the set.
pub reduce_band-IsMeet :
    (width start stride size : ℕ) (value : ℕ → List ℕ)
    → ((q : ℕ) → IsArray width (value q))
    → IsMeet width
        (λ i. value (start + i * stride))
        (size - 1)
        (reduce_band start stride size value)
unfolding reduce_band
reduce_band-IsMeet width start stride size value all =
    fold_band-IsMeet width (λ i. value (start + i * stride)) (λ i. all (start + i * stride))
      (size - 1)
