-- ===== src/Util/Bounds.antt =====
-- The buffer of `shmem_util_wrap` of src/util.c.
use mathlib.Core.Path.{subst}
use native.Mathlib.Nat.{zero-mul, add-mul}
use sandia_shmem.Base.{
  ℕ, zero, suc, ◌+◌, ◌-◌, ◌*◌, ◌<◌, ◌≡◌, refl, ap, ◌⊎◌, inl, inr, List, Option, none, length, arith,
}
use sandia_shmem.Util.{Wrap, Outcome, returns, overflow, indent_len, round, loop, enough, wrap}
use sandia_shmem.Util.Chars.{IsText, Outcome-cases}
use sandia_shmem.Util.Stores.{il, Inv}
use sandia_shmem.Util.Lines.{measure, IsGood}
use sandia_shmem.Util.Rounds.{round_lem}

module _ (text : List ℕ) (wraplen : ℕ) (indent : Option (List ℕ)) where
  -- What `wrap` comes to.
  abbrev pub IsResult : Outcome → Type 0
  IsResult r =
      ((0 < (il text wraplen indent)) × ((out : ℕ → ℕ) × (r ≡ returns out)))
      ⊎ (((il text wraplen indent) ≡ 0) × (r ≡ overflow))

  loop_lem :
      (fuel : ℕ) (s : Wrap) (k prev line : ℕ)
      → 0 < wraplen
      → IsText text
      → (Inv text wraplen indent) s s.str_p k prev line
      → (measure text wraplen indent) line s.str_p < fuel
      → IsResult (loop text wraplen indent fuel s)
  unfolding loop
  loop_lem zero s k prev line positive is v l = absurd (omega (arith, l))
  loop_lem (suc fuel) s k prev line positive is v l =
      let good = (round_lem text wraplen indent) s k prev line positive is v in
      elim (Outcome-cases (round text wraplen indent s)) [
        | inl (s', e) ↦
            let (k', prev', line', v', less) =
              subst
                (λ r. (IsGood text wraplen indent) r ((measure text wraplen indent) line s.str_p)) e
                good in
            rw (e, loop) (loop_lem fuel s' k' prev' line' positive is v' (omega (arith, less, l)))
        | inr (inl (out, e)) ↦
            let some_indent =
              subst
                (λ r. (IsGood text wraplen indent) r ((measure text wraplen indent) line s.str_p)) e
                good in
            rw (e, loop) (inl (some_indent, (out, refl)))
        | inr (inr (inl e)) ↦
            let none_left =
              subst
                (λ r. (IsGood text wraplen indent) r ((measure text wraplen indent) line s.str_p)) e
                good in
            rw (e, loop) (inr (none_left, refl))
        | inr (inr (inr e)) ↦ absurd (
            subst (λ r. (IsGood text wraplen indent) r ((measure text wraplen indent) line s.str_p))
              e good)
      ]

enough_fuel : (n : ℕ) → (n - 0) * (n + 2) + (n - 0) < (n + 1) * (n + 2) + 1
enough_fuel n =
    let e : (n - 0) * (n + 2) ≡ n * (n + 2) = ap (λ x. x * (n + 2)) (omega arith) in
    omega (arith, e, add-mul n 1 (n + 2))

-- For a wrap length that is not 0 and a text with no NUL inside, either the indent has a character
-- and `shmem_util_wrap` returns, with every store within its buffer, the last NUL included; or
-- there is no indent or an empty one, and it stores outside of its buffer.
pub wrap_lem :
    (text : List ℕ) (wraplen : ℕ) (indent : Option (List ℕ))
    → IsText text
    → 0 < wraplen
    → ((0 < indent_len text wraplen indent)
        × ((out : ℕ → ℕ) × (wrap text wraplen indent ≡ returns out)))
      ⊎ ((indent_len text wraplen indent ≡ 0) × (wrap text wraplen indent ≡ overflow))
unfolding wrap
wrap_lem text wraplen indent is positive =
    loop_lem text wraplen indent (enough text wraplen indent)
      (record { str_p = 0; out_p = 0; linelen = 0; saved = none; out = λ i. 0 }) 0 0 0 positive is
      (record {
        at_line = omega arith;
        inside = (omega arith, omega arith);
        at_out = omega (arith, zero-mul (indent_len text wraplen indent));
        saved = tt;
        count = omega (arith, zero-mul wraplen);
        before = inl (refl, refl, refl);
      })
      (enough_fuel (length text))
