-- ===== src/Util/Rounds.antt =====
-- A round of the loop of `shmem_util_wrap` of src/util.c.
use mathlib.Core.Path.{subst}
use native.Mathlib.Nat.{mul-zero, add-mul, mul-le-mul_right}
use sandia_shmem.Base.{
  ℕ, dec_lt, ◌+◌, ◌*◌, ◌<◌, ◌≡◌, ◌≢◌, ap, ◌∙◌, inl, inr, List, Option, none, some, ◌==◌, arith,
  Bool-cases, ==_iff,
}
use sandia_shmem.Util.{Wrap, char_at, capacity, put_char, end_text, round, space}
use sandia_shmem.Util.Chars.{IsText, at_nul, before_nul}
use sandia_shmem.Util.Stores.{
  size, breaks, il, IsSaved, Inv, put_char_lem, put_char-none, few_breaks,
}
use sandia_shmem.Util.Lines.{measure, IsGood, put_or_break_lem}

module _ (text : List ℕ) (wraplen : ℕ) (indent : Option (List ℕ)) where
  -- A space of the text.
  remember-Inv :
      (s : Wrap) (k prev line : ℕ)
      → (Inv text wraplen indent) s s.str_p k prev line
      → s.str_p < (size text wraplen indent)
      → char_at text s.str_p ≡ space
      → (Inv text wraplen indent)
          (record s { saved = some (s.str_p, s.out_p) })
          (s.str_p + 1)
          k
          prev
          line
  remember-Inv s k prev line v l is_space = record {
    at_line = v.at_line;
    inside = (omega arith, omega (arith, l));
    at_out = v.at_out;
    saved = (
      omega (arith, v.at_line),
      omega arith,
      is_space,
      v.at_out,
      λ j l l'. absurd (omega (arith, l, l')),
    );
    count = v.count;
    before = v.before;
  }

  -- A character that is not a space.
  skip-IsSaved :
      (line str_p k : ℕ) (saved : Option (ℕ × ℕ))
      → char_at text str_p ≢ space
      → (IsSaved text wraplen indent) line str_p k saved
      → (IsSaved text wraplen indent) line (str_p + 1) k saved
  skip-IsSaved line str_p k none other w = tt
  skip-IsSaved line str_p k (some (str_s, out_s)) other (after, seen, is_space, at, no_more) = (
    after,
    omega (arith, seen),
    is_space,
    at,
    λ j l l'. elim (dec_lt j str_p) [
      | yes before ↦ no_more j l before
      | no not_before ↦
          let same : str_p ≡ j = omega (arith, l', not_before) in
          subst (λ i. char_at text i ≢ space) same other
    ],
  )

  skip-Inv :
      (s : Wrap) (k prev line : ℕ)
      → (Inv text wraplen indent) s s.str_p k prev line
      → s.str_p < (size text wraplen indent)
      → char_at text s.str_p ≢ space
      → (Inv text wraplen indent) s (s.str_p + 1) k prev line
  skip-Inv s k prev line v l other = record {
    at_line = v.at_line;
    inside = (omega arith, omega (arith, l));
    at_out = v.at_out;
    saved = skip-IsSaved line s.str_p k s.saved other v.saved;
    count = v.count;
    before = v.before;
  }

  -- The NUL behind the output.
  end_text_lem :
      (s : Wrap) (k prev line m : ℕ)
      → 0 < wraplen
      → (Inv text wraplen indent) s s.str_p k prev line
      → s.str_p ≡ (size text wraplen indent)
      → (IsGood text wraplen indent) (end_text text wraplen indent s) m
  unfolding end_text put_char
  end_text_lem s k prev line m positive v end =
      let few = (few_breaks text wraplen indent) s s.str_p k prev line positive v in
      let more =
        mul-le-mul_right {m = k + 1} {n = (breaks text wraplen indent)} (il text wraplen indent)
          (omega (arith, few)) in
      elim (dec_lt 0 (il text wraplen indent)) [
        | yes some_indent ↦
            let here : s.out_p < capacity text wraplen indent =
              omega
                (arith, v.at_out, end, more, add-mul k 1 (il text wraplen indent), some_indent) in
            let (out, e) = (put_char_lem text wraplen indent) s.out s.out_p 0 here in
            rw (e, end_text) some_indent
        | no none_left ↦
            let no_indent : (il text wraplen indent) ≡ 0 = omega (arith, none_left) in
            let none_used : k * (il text wraplen indent) ≡ 0 =
              ap (λ x. k * x) no_indent ∙ mul-zero k in
            let none_there : (breaks text wraplen indent) * (il text wraplen indent) ≡ 0 =
              ap (λ x. (breaks text wraplen indent) * x) no_indent
              ∙ mul-zero (breaks text wraplen indent) in
            rw
              (
                (put_char-none text wraplen indent) s.out s.out_p 0
                    (λ l. omega (arith, l, v.at_out, end, none_used, none_there)),
                end_text,
              )
              no_indent
      ]

  pub round_lem :
      (s : Wrap) (k prev line : ℕ)
      → 0 < wraplen
      → IsText text
      → (Inv text wraplen indent) s s.str_p k prev line
      → (IsGood text wraplen indent)
          (round text wraplen indent s)
          ((measure text wraplen indent) line s.str_p)
  unfolding round
  round_lem s k prev line positive is v = elim (Bool-cases (char_at text s.str_p == 0)) [
    | inl end ↦
        rw (end, round)
          (end_text_lem s k prev line _ positive v
            (at_nul text s.str_p is v.inside.1 ((==_iff (char_at text s.str_p) 0).0 end)))
    | inr more ↦ elim (Bool-cases (char_at text s.str_p == space)) [
      | inl e ↦
          rw (more, e, round)
            ((put_or_break_lem text wraplen indent) (record s { saved = some (s.str_p, s.out_p) })
              (char_at text s.str_p) k prev line positive
              (remember-Inv s k prev line v (before_nul text s.str_p v.inside.1 more)
                ((==_iff (char_at text s.str_p) space).0 e)))
      | inr e ↦
          rw (more, e, round)
            ((put_or_break_lem text wraplen indent) s (char_at text s.str_p) k prev line positive (
              skip-Inv s k prev line v (before_nul text s.str_p v.inside.1 more)
                (λ same. ground (arith, e, same))))
    ]
  ]
