-- ===== src/Util.antt =====
-- `shmem_util_wrap` of src/util.c, on characters as numbers. A text is the list of its characters before the NUL. The
-- memory that `malloc` answers is there; a store outside of it is `overflow`.
pub mod Chars
pub mod Stores
pub mod Lines
pub mod Rounds
pub mod Bounds
mod Tests
use sandia_shmem.Base.{
  ℕ, zero, suc, ◌+◌, ◌*◌, ◌/◌, List, [], ◌∷◌, Option, none, some, ltb, leb, ◌==◌, if◌then◌else◌,
  length,
}
use sandia_shmem.Comm.{update}

abbrev pub space : ℕ
space = 32

abbrev pub newline : ℕ
newline = 10

-- The character at a place of the text, and the NUL behind it.
unfoldable pub char_at : List ℕ → ℕ → ℕ
char_at [] i = 0
char_at (c ∷ cs) zero = c
char_at (c ∷ cs) (suc i) = char_at cs i

-- Pointers are offsets; `saved` is `str_s` with `out_s`, which are set together.
pub record Wrap : Type 0 where
  pub str_p : ℕ
  pub out_p : ℕ
  pub linelen : ℕ
  pub saved : Option (ℕ × ℕ)
  pub out : ℕ → ℕ

-- A round of the loop: the loop goes on, the function returns, or it has stored outside of the buffer.
pub data Outcome : Type 0 where
  goes : Wrap → Outcome
  returns : (ℕ → ℕ) → Outcome
  overflow out_of_fuel : Outcome

module _ (text : List ℕ) (wraplen : ℕ) (indent : Option (List ℕ)) where
  abbrev pub indent_len : ℕ
  indent_len = elim indent [ none ↦ 0 | some cs ↦ length cs ]

  -- The size of the buffer.
  abbrev pub capacity : ℕ
  capacity = length text + 2 * (length text / wraplen + 1) * indent_len

  unfoldable pub put_char : (ℕ → ℕ) → ℕ → ℕ → Option (ℕ → ℕ)
  put_char out i c = if ltb i capacity then some (update out i c) else none

  -- `strcpy`, with the NUL.
  unfoldable pub strcpy : List ℕ → (ℕ → ℕ) → ℕ → Option (ℕ → ℕ)
  unfolding put_char
  strcpy [] out i = put_char out i 0
  strcpy (c ∷ cs) out i = elim (put_char out i c) [
    | none ↦ none
    | some out' ↦ strcpy cs out' (i + 1)
  ]

  unfoldable pub put_indent : Option (List ℕ) → (ℕ → ℕ) → ℕ → Option (ℕ → ℕ)
  unfolding strcpy
  put_indent none out i = some out
  put_indent (some cs) out i = strcpy cs out i

  -- Back to the last space, a newline in its place, and the indent.
  unfoldable pub new_line : Wrap → ℕ → ℕ → Outcome
  unfolding put_char put_indent
  new_line s str_s out_s = elim (put_char s.out out_s newline) [
    | none ↦ overflow
    | some out ↦ elim (put_indent indent out (out_s + 1)) [
      | none ↦ overflow
      | some out' ↦ goes (record {
        str_p = str_s + 1;
        out_p = out_s + 1 + indent_len;
        linelen = 0;
        saved = none;
        out = out';
      })
    ]
  ]

  unfoldable pub copy_char : Wrap → ℕ → Outcome
  unfolding put_char
  copy_char s c = elim (put_char s.out s.out_p c) [
    | none ↦ overflow
    | some out ↦
        goes (record s {
          str_p = s.str_p + 1;
          out_p = s.out_p + 1;
          linelen = s.linelen + 1;
          out = out;
        })
  ]

  -- The location of the last space, with the current character.
  abbrev pub remember : Wrap → ℕ → Wrap
  remember s c = if c == space then record s { saved = some (s.str_p, s.out_p) } else s

  unfoldable pub at_end : Option (ℕ × ℕ) → Wrap → ℕ → Outcome
  unfolding new_line copy_char
  at_end none s c = copy_char s c
  at_end (some (str_s, out_s)) s c = new_line s str_s out_s

  abbrev pub put_or_break : Wrap → ℕ → Outcome
  put_or_break s c = if leb wraplen s.linelen then at_end s.saved s c else copy_char s c

  unfoldable pub end_text : Wrap → Outcome
  unfolding put_char
  end_text s = elim (put_char s.out s.out_p 0) [ none ↦ overflow | some out ↦ returns out ]

  unfoldable pub round : Wrap → Outcome
  unfolding at_end end_text char_at
  round s =
      let c = char_at text s.str_p in if c == 0 then end_text s else put_or_break (remember s c) c

  unfoldable pub loop : ℕ → Wrap → Outcome
  unfolding round
  loop zero s = out_of_fuel
  loop (suc fuel) s = elim (round s) [
    | goes s' ↦ loop fuel s'
    | returns out ↦ returns out
    | overflow ↦ overflow
    | out_of_fuel ↦ out_of_fuel
  ]

  abbrev pub enough : ℕ
  enough = (length text + 1) * (length text + 2) + 1

  -- What the buffer holds before the loop does not matter; here it is 0.
  unfoldable pub wrap : Outcome
  unfolding loop
  wrap = loop enough (record { str_p = 0; out_p = 0; linelen = 0; saved = none; out = λ i. 0 })
