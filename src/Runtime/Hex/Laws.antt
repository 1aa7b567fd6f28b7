-- ===== src/Runtime/Hex/Laws.antt =====
-- The round trip of `shmem_runtime_util_encode` and `_decode` of src/runtime_util.c.
use sandia_shmem.Base.{
  ℕ, ◌+◌, ◌*◌, ◌<◌, ◌≤◌, ◌≡◌, ◌≢◌, ◌⊎◌, refl, ap, Bool, true, List, [], ◌∷◌, length, none, some,
  arith, Elem, inl, inr, dec_lt, leb, ◌==◌, ==_iff, ◌&&◌, ◌||◌,
}
use sandia_shmem.Base.Byte.{every, every-at}
use sandia_shmem.BitSet.Laws.{IsBytes}
use sandia_shmem.Runtime.Hex.{
  low_char, high_char, encode_from, encode, digit_of, byte_of, decode_from, decode,
}

-- '0' to '9' and 'a' to 'f'
abbrev pub IsHexDigit : ℕ → Type 0
IsHexDigit c = ((48 ≤ c) × (c ≤ 57)) ⊎ ((97 ≤ c) × (c ≤ 102))

abbrev hex_digit : ℕ → Bool
hex_digit c = (leb 48 c && leb c 57) || (leb 97 c && leb c 102)

-- Every byte at once.
abbrev byte_law : ℕ → Bool
byte_law b =
    hex_digit (low_char b) && (hex_digit (high_char b) && (byte_of (low_char b) (high_char b) == b))

byte_table : every byte_law 256 ≡ true
unfolding every byte_of low_char high_char digit_of
byte_table = refl

at_byte : (b : ℕ) → b < 256 → byte_law b ≡ true
at_byte b h = every-at byte_law 256 byte_table b h

byte_roundtrip : (b : ℕ) → b < 256 → byte_of (low_char b) (high_char b) ≡ b
byte_roundtrip b h = (==_iff _ b).0 (ground (arith, at_byte b h))

low_char-IsHexDigit : (b : ℕ) → b < 256 → IsHexDigit (low_char b)
low_char-IsHexDigit b h = ground (arith, at_byte b h)

high_char-IsHexDigit : (b : ℕ) → b < 256 → IsHexDigit (high_char b)
high_char-IsHexDigit b h = ground (arith, at_byte b h)

length-encode_from : (inval : List ℕ) → length (encode_from inval) ≡ length inval * 2
unfolding encode_from
length-encode_from [] = refl
length-encode_from (b ∷ inval) = omega (arith, length-encode_from inval)

encode_from-IsHexDigit :
    (inval : List ℕ) → IsBytes inval → (c : ℕ) → Elem c (encode_from inval) → IsHexDigit c
unfolding encode_from
encode_from-IsHexDigit [] v c m = absurd m
encode_from-IsHexDigit (b ∷ inval) v c (inl e) = rw e (low_char-IsHexDigit b v.0)
encode_from-IsHexDigit (b ∷ inval) v c (inr (inl e)) = rw e (high_char-IsHexDigit b v.0)
encode_from-IsHexDigit (b ∷ inval) v c (inr (inr m)) = encode_from-IsHexDigit inval v.1 c m

decode_from-encode_from :
    (inval : List ℕ) → IsBytes inval → decode_from (length inval) (encode_from inval) ≡ inval
unfolding encode_from decode_from
decode_from-encode_from [] v = refl
decode_from-encode_from (b ∷ inval) v =
    rw (byte_roundtrip b v.0) (ap (λ x. b ∷ x) (decode_from-encode_from inval v.1))

-- Encoding bytes into a buffer that holds two characters for each and a NUL gives a string of twice the
-- length, all of whose characters are hexadecimal digits, so none is NUL; decoding it into a
-- buffer of the number of bytes gives the bytes again, and decoding it into a buffer of any other
-- size fails. Encoding into a smaller buffer fails.
pub decode-encode :
    (inval : List ℕ) (outvallen : ℕ)
    → IsBytes inval
    → ((outvallen < length inval * 2 + 1) × (encode inval outvallen ≡ none))
      ⊎ ((s : List ℕ) × (encode inval outvallen ≡ some s)
          × (length s ≡ length inval * 2)
          × ((c : ℕ) → Elem c s → IsHexDigit c)
          × (decode s (length inval) ≡ some inval)
          × ((n : ℕ) → n ≢ length inval → decode s n ≡ none))
unfolding encode decode
decode-encode inval outvallen v = elim (dec_lt outvallen (length inval * 2 + 1)) [
  | yes small ↦ inl (small, ground arith)
  | no room ↦
      let len = length-encode_from inval in
      inr (
        encode_from inval,
        ground arith,
        len,
        encode_from-IsHexDigit inval v,
        ground (arith, len, decode_from-encode_from inval v),
        (λ n ne. ground (arith, len)),
      )
]
