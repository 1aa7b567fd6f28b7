-- ===== src/Util/Lines.antt =====
-- A round of `shmem_util_wrap` of src/util.c, at a character of the text.
use mathlib.Core.Path.{subst}
use native.Mathlib.Nat.{zero-mul, add-mul, mul-le-mul_right}
use sandia_shmem.Base.{
  ℕ, dec_lt, ◌+◌, ◌-◌, ◌*◌, ◌<◌, ◌≤◌, ◌≡◌, refl, ap, ◌∙◌, ◌⊎◌, inl, inr, List, Option, none, some,
  leb, arith, Bool-cases, leb→le, none_some,
}
use sandia_shmem.Util.{
  Wrap, Outcome, goes, returns, overflow, out_of_fuel, capacity, put_indent, new_line, copy_char,
  at_end, put_or_break, newline,
}
use sandia_shmem.Util.Chars.{Option-cases}
use sandia_shmem.Util.Stores.{
  size, il, IsSaved, Inv, put_char_lem, put_indent_lem, few_breaks, in_buffer, after_indent,
}

module _ (text : List ℕ) (wraplen : ℕ) (indent : Option (List ℕ)) where
  abbrev pub measure : ℕ → ℕ → ℕ
  measure line str_p =
      ((size text wraplen indent) - line) * ((size text wraplen indent) + 2)
      + ((size text wraplen indent) - str_p)

  -- A round goes on with less to do, or returns, or leaves the buffer, the latter two by whether there is an indent.
  abbrev pub IsGood : Outcome → ℕ → Type 0
  IsGood (goes s) m =
      (k : ℕ) × (prev : ℕ) × (line : ℕ) × (Inv text wraplen indent) s s.str_p k prev line
      × (measure line s.str_p < m)
  IsGood (returns out) m = 0 < (il text wraplen indent)
  IsGood overflow m = (il text wraplen indent) ≡ 0
  IsGood out_of_fuel m = ⊥

  copy_char_lem :
      (s : Wrap) (c k prev line : ℕ)
      → 0 < wraplen
      → (Inv text wraplen indent) s (s.str_p + 1) k prev line
      → IsGood (copy_char text wraplen indent s c) (measure line s.str_p)
  unfolding copy_char
  copy_char_lem s c k prev line positive v =
      let few = (few_breaks text wraplen indent) s (s.str_p + 1) k prev line positive v in
      let here = (in_buffer text wraplen indent) k s.str_p few (omega (arith, v.inside.1)) in
      let (out, e) =
        (put_char_lem text wraplen indent) s.out s.out_p c (omega (arith, v.at_out, here)) in
      rw (e, copy_char)
        (
          k,
          prev,
          line,
          record {
            at_line = omega (arith, v.at_line);
            inside = (omega arith, v.inside.1);
            at_out = omega (arith, v.at_out);
            saved = v.saved;
            count = v.count;
            before = v.before;
          },
          omega (arith, v.inside.1),
        )

  -- The state at the start of a new line.
  abbrev pub broken : ℕ → ℕ → (ℕ → ℕ) → Wrap
  broken str_s out_s out = record {
    str_p = str_s + 1;
    out_p = out_s + 1 + (il text wraplen indent);
    linelen = 0;
    saved = none;
    out = out;
  }

  broken-Inv :
      (s : Wrap) (str_s out_s k prev line : ℕ) (out : ℕ → ℕ)
      → wraplen ≤ s.linelen
      → (Inv text wraplen indent) s (s.str_p + 1) k prev line
      → (IsSaved text wraplen indent) line (s.str_p + 1) k (some (str_s, out_s))
      → (Inv text wraplen indent) (broken str_s out_s out) (str_s + 1) (k + 1) line (str_s + 1)
  broken-Inv s str_s out_s k prev line out long v (after, seen, is_space, at, no_more) = record {
    at_line = omega arith;
    inside = (omega arith, omega (arith, seen, v.inside.1));
    at_out = omega (arith, at, add-mul k 1 (il text wraplen indent));
    saved = tt;
    count = elim v.before [
      | inl (none_yet, _, start) ↦
          let none_wide : k * wraplen ≡ 0 = ap (λ x. x * wraplen) none_yet ∙ zero-mul wraplen in
          omega (arith, none_wide, add-mul k 1 wraplen)
      | inr (_, _, _, no_space) ↦
          let far : prev + wraplen < str_s = elim (dec_lt (prev + wraplen) str_s) [
            | yes l ↦ l
            | no l ↦ absurd (no_space str_s after (omega (arith, l)) is_space)
          ] in
          omega (arith, far, v.count, add-mul k 1 wraplen)
    ];
    before = inr (
      omega arith,
      omega (arith, long, v.at_line, v.inside.1),
      omega (arith, after),
      λ j l l'. no_more j (omega (arith, l)) (omega (arith, l', long, v.at_line)),
    );
  }

  broken-IsGood :
      (s : Wrap) (str_s out_s k prev line : ℕ) (out : ℕ → ℕ)
      → wraplen ≤ s.linelen
      → (Inv text wraplen indent) s (s.str_p + 1) k prev line
      → (IsSaved text wraplen indent) line (s.str_p + 1) k (some (str_s, out_s))
      → IsGood (goes (broken str_s out_s out)) (measure line s.str_p)
  broken-IsGood s str_s out_s k prev line out long v w =
      let (after, seen, _, _, _) = w in
      let less =
        mul-le-mul_right {m = (size text wraplen indent) - (str_s + 1) + 1}
          {n = (size text wraplen indent) - line} ((size text wraplen indent) + 2)
          (omega (arith, after, seen, v.inside.1)) in
      (
        k + 1,
        line,
        str_s + 1,
        broken-Inv s str_s out_s k prev line out long v w,
        omega (
          arith,
          less,
          add-mul ((size text wraplen indent) - (str_s + 1)) 1 ((size text wraplen indent) + 2),
          after,
          seen,
          v.inside.1,
        ),
      )

  new_line_lem :
      (s : Wrap) (str_s out_s k prev line : ℕ)
      → 0 < wraplen
      → wraplen ≤ s.linelen
      → (Inv text wraplen indent) s (s.str_p + 1) k prev line
      → (IsSaved text wraplen indent) line (s.str_p + 1) k (some (str_s, out_s))
      → IsGood (new_line text wraplen indent s str_s out_s) (measure line s.str_p)
  unfolding new_line
  new_line_lem s str_s out_s k prev line positive long v w =
      let few = (few_breaks text wraplen indent) s (s.str_p + 1) k prev line positive v in
      let within : str_s < (size text wraplen indent) = omega (arith, w.1, v.inside.1) in
      let here = (in_buffer text wraplen indent) k str_s few within in
      let (out, e) =
        (put_char_lem text wraplen indent) s.out out_s newline (omega (arith, w.3, here)) in
      let after = broken-Inv s str_s out_s k prev line out long v w in
      let more =
        (few_breaks text wraplen indent) (broken str_s out_s out) (str_s + 1) (k + 1) line
          (str_s + 1) positive after in
      let fits : (out_s + 1 + (il text wraplen indent) < capacity text wraplen indent)
          ⊎ ((il text wraplen indent) ≡ 0) =
        elim ((after_indent text wraplen indent) k str_s (omega (arith, more)) within) [
          | inl l ↦ inl (omega (arith, l, w.3))
          | inr none_left ↦ inr none_left
        ] in
      elim (Option-cases (put_indent text wraplen indent indent out (out_s + 1))) [
        | inr (out', e') ↦
            rw (e, e', new_line) (broken-IsGood s str_s out_s k prev line out' long v w)
        | inl e' ↦ elim fits [
          | inl l ↦
              let (out', e'') = (put_indent_lem text wraplen indent) indent out (out_s + 1) l in
              none_some e' e''
          | inr none_left ↦ rw (e, e', new_line) none_left
        ]
      ]

  at_end_lem :
      (s : Wrap) (c k prev line : ℕ)
      → 0 < wraplen
      → wraplen ≤ s.linelen
      → (Inv text wraplen indent) s (s.str_p + 1) k prev line
      → (saved : Option (ℕ × ℕ)) → s.saved ≡ saved
      → IsGood (at_end text wraplen indent saved s c) (measure line s.str_p)
  unfolding at_end
  at_end_lem s c k prev line positive long v none e = copy_char_lem s c k prev line positive v
  at_end_lem s c k prev line positive long v (some (str_s, out_s)) e =
      new_line_lem s str_s out_s k prev line positive long v
        (subst ((IsSaved text wraplen indent) line (s.str_p + 1) k) e v.saved)

  pub put_or_break_lem :
      (s : Wrap) (c k prev line : ℕ)
      → 0 < wraplen
      → (Inv text wraplen indent) s (s.str_p + 1) k prev line
      → IsGood (put_or_break text wraplen indent s c) (measure line s.str_p)
  put_or_break_lem s c k prev line positive v = elim (Bool-cases (leb wraplen s.linelen)) [
    | inr short ↦ rw (short, put_or_break) (copy_char_lem s c k prev line positive v)
    | inl long ↦
        rw (long, put_or_break)
          (at_end_lem s c k prev line positive (leb→le wraplen s.linelen long) v s.saved refl)
  ]
