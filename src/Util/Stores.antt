-- ===== src/Util/Stores.antt =====
-- The stores of `shmem_util_wrap` of src/util.c and the state of its loop.
use native.Mathlib.Nat.{add-mul, mul-le-mul_right}
use sandia_shmem.Base.{
  ℕ, suc, dec_lt, ◌+◌, ◌*◌, ◌/◌, ◌<◌, ◌≤◌, ◌≡◌, ◌≢◌, refl, ◌⊎◌, inl, inr, List, [], ◌∷◌, Option,
  none, some, ltb, length, arith, true, false,
}
use sandia_shmem.Util.{
  Wrap, char_at, capacity, indent_len, put_char, strcpy, put_indent, space, update,
}
use sandia_shmem.Util.Chars.{room}

module _ (text : List ℕ) (wraplen : ℕ) (indent : Option (List ℕ)) where
  abbrev pub size : ℕ
  size = length text

  abbrev pub il : ℕ
  il = indent_len text wraplen indent

  -- The breaks that the buffer has room for.
  abbrev pub breaks : ℕ
  breaks = 2 * (size / wraplen + 1)

  -- The location saved: a space of the line, with none after it.
  abbrev pub IsSaved : ℕ → ℕ → ℕ → Option (ℕ × ℕ) → Type 0
  IsSaved line str_p k none = Unit
  IsSaved line str_p k (some (str_s, out_s)) =
      (line ≤ str_s)
      × (str_s < str_p)
      × (char_at text str_s ≡ space)
      × (out_s ≡ str_s + k * il)
      × ((j : ℕ) → str_s < j → j < str_p → char_at text j ≢ space)

  -- The state with the characters below `seen` looked at, after `k` breaks, in the line that starts at `line`, with the line before it at `prev`.
  pub record Inv (s : Wrap) (seen k prev line : ℕ) : Type 0 where
    pub at_line : s.str_p ≡ line + s.linelen
    pub inside : (s.str_p ≤ seen) × (seen ≤ size)
    pub at_out : s.out_p ≡ s.str_p + k * il
    pub saved : IsSaved line seen k s.saved
    pub count : k * wraplen ≤ line + prev + wraplen
    pub before :
        ((k ≡ 0) × (prev ≡ 0) × (line ≡ 0))
        ⊎ ((0 < k)
            × (prev + wraplen < size)
            × (prev < line)
            × ((j : ℕ) → line ≤ j → j ≤ prev + wraplen → char_at text j ≢ space))

  pub put_char_lem :
      (out : ℕ → ℕ) (i c : ℕ)
      → i < capacity text wraplen indent
      → (out' : ℕ → ℕ) × (put_char text wraplen indent out i c ≡ some out')
  unfolding put_char
  put_char_lem out i c l =
      let e : ltb i (capacity text wraplen indent) ≡ true = ground (arith, l) in
      (update out i c, rw e refl)

  pub put_char-none :
      (out : ℕ → ℕ) (i c : ℕ)
      → ¬ (i < capacity text wraplen indent)
      → put_char text wraplen indent out i c ≡ none
  unfolding put_char
  put_char-none out i c l =
      let e : ltb i (capacity text wraplen indent) ≡ false = ground (arith, l) in rw e refl

  strcpy_lem :
      (cs : List ℕ) (out : ℕ → ℕ) (i : ℕ)
      → i + length cs < capacity text wraplen indent
      → (out' : ℕ → ℕ) × (strcpy text wraplen indent cs out i ≡ some out')
  unfolding strcpy
  strcpy_lem [] out i l = put_char_lem out i 0 (omega (arith, l))
  strcpy_lem (c ∷ cs) out i l =
      let (out', e) = put_char_lem out i c (omega (arith, l)) in
      let (out'', e') = strcpy_lem cs out' (i + 1) (omega (arith, l)) in (out'', rw (e, strcpy) e')

  pub put_indent_lem :
      (r : Option (List ℕ)) (out : ℕ → ℕ) (i : ℕ)
      → i + elim r [ none ↦ 0 | some cs ↦ length cs ] < capacity text wraplen indent
      → (out' : ℕ → ℕ) × (put_indent text wraplen indent r out i ≡ some out')
  unfolding put_indent
  put_indent_lem none out i l = (out, refl)
  put_indent_lem (some cs) out i l = strcpy_lem cs out i l

  pub few_breaks :
      (s : Wrap) (seen k prev line : ℕ) → 0 < wraplen → Inv s seen k prev line → k < breaks
  few_breaks s seen k prev line positive v = elim v.before [
    | inl (none_yet, _, _) ↦ omega (arith, none_yet)
    | inr (_, more, _, _) ↦
        room size wraplen k line prev positive v.count (omega (arith, v.at_line, v.inside)) more
  ]

  -- A place of the output before the end of the text.
  pub in_buffer : (k i : ℕ) → k < breaks → i < size → i + k * il < capacity text wraplen indent
  in_buffer k i l l' =
      let more = mul-le-mul_right {m = k} {n = breaks} (il) (omega (arith, l)) in
      omega (arith, more, l')

  -- The place behind one more indent.
  pub after_indent :
      (k i : ℕ)
      → suc k < breaks
      → i < size
      → i + k * il + 1 + il < capacity text wraplen indent ⊎ (il ≡ 0)
  after_indent k i l l' = elim (dec_lt 0 il) [
    | yes some_indent ↦
        let more = mul-le-mul_right {m = k + 2} {n = breaks} il (omega (arith, l)) in
        inl (omega (arith, more, add-mul k 2 il, l', some_indent))
    | no none_left ↦ inr (omega (arith, none_left))
  ]
