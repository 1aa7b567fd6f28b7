-- ===== src/Runtime/Hex.antt =====
-- `shmem_runtime_util_encode` and `_decode` of src/runtime_util.c: bytes as text of hexadecimal digits, the low
-- digit of each byte first. A `char` is its value as a byte, and a C string the list of its
-- characters before the NUL, so that `strlen` is the length of the list. `none` is the return value 1.
pub mod Laws
use Prim.Native.Nat.{bit_and, bit_or}
use sandia_shmem.Base.{
  ℕ, zero, suc, ◌+◌, ◌-◌, ◌*◌, ◌/◌, ◌%◌, List, [], ◌∷◌, get_or, length, Option, none, some, ltb,
  leb, ◌==◌, ◌&&◌, if◌then◌else◌,
}

-- '0', …, '9', 'a', …, 'f'
abbrev pub encodings : List ℕ
encodings = 48 ∷ 49 ∷ 50 ∷ 51 ∷ 52 ∷ 53 ∷ 54 ∷ 55 ∷ 56 ∷ 57 ∷ 97 ∷ 98 ∷ 99 ∷ 100 ∷ 101 ∷ 102 ∷ []

-- The two characters of a byte.
unfoldable pub low_char : ℕ → ℕ
low_char b = get_or encodings (bit_and b 15) 0

unfoldable pub high_char : ℕ → ℕ
high_char b = get_or encodings (b / 16) 0

unfoldable pub encode_from : List ℕ → List ℕ
encode_from [] = []
encode_from (b ∷ inval) = low_char b ∷ high_char b ∷ encode_from inval

unfoldable pub encode : List ℕ → ℕ → Option (List ℕ)
encode inval outvallen =
    if ltb outvallen (length inval * 2 + 1) then none else some (encode_from inval)

-- `*inval - '0'` or `*inval - 'a' + 10`, as a byte
unfoldable pub digit_of : ℕ → ℕ
digit_of c = if leb 48 c && leb c 57 then c - 48 else (c + 256 - 97 + 10) % 256

unfoldable pub byte_of : ℕ → ℕ → ℕ
byte_of lo hi = bit_or (digit_of lo) (digit_of hi * 16 % 256)

-- The loop, with `left` bytes to go.
unfoldable pub decode_from : ℕ → List ℕ → List ℕ
unfolding byte_of
decode_from (suc left) (lo ∷ hi ∷ inval) = byte_of lo hi ∷ decode_from left inval
decode_from _ _ = []

unfoldable pub decode : List ℕ → ℕ → Option (List ℕ)
unfolding decode_from
decode inval outvallen =
    if outvallen == length inval / 2 then some (decode_from outvallen inval) else none
