-- ===== src/Util/Tests.antt =====
-- Runs of src/util.c.
use sandia_shmem.Base.{ℕ, ◌<◌, ◌≡◌, ◌⊎◌, refl, inl, inr, List, [], ◌∷◌, Option, none, some, arith}
use sandia_shmem.Util.{Outcome, returns, overflow, indent_len, wrap}
use sandia_shmem.Util.Bounds.{wrap_lem}
use sandia_shmem.Util.Chars.{IsText}

-- "ab cd ef", wrapped at 4.
abbrev words : List ℕ
words = 97 ∷ 98 ∷ 32 ∷ 99 ∷ 100 ∷ 32 ∷ 101 ∷ 102 ∷ []

words-IsText : IsText words
words-IsText m = elim m [
  | inl e ↦ omega (arith, e)
  | inr (inl e) ↦ omega (arith, e)
  | inr (inr (inl e)) ↦ omega (arith, e)
  | inr (inr (inr (inl e))) ↦ omega (arith, e)
  | inr (inr (inr (inr (inl e)))) ↦ omega (arith, e)
  | inr (inr (inr (inr (inr (inl e))))) ↦ omega (arith, e)
  | inr (inr (inr (inr (inr (inr (inl e)))))) ↦ omega (arith, e)
  | inr (inr (inr (inr (inr (inr (inr (inl e))))))) ↦ omega (arith, e)
  | inr (inr (inr (inr (inr (inr (inr (inr none_left))))))) ↦ absurd none_left
]

abbrev one_tab : Option (List ℕ)
one_tab = some (9 ∷ [])

wrap_lem_example :
    ((0 < indent_len words 4 one_tab) × ((out : ℕ → ℕ) × (wrap words 4 one_tab ≡ returns out)))
    ⊎ ((indent_len words 4 one_tab ≡ 0) × (wrap words 4 one_tab ≡ overflow))
wrap_lem_example = wrap_lem words 4 one_tab words-IsText (omega arith)

-- Without an indent, the last NUL is outside.
no_indent_run : wrap words 4 none ≡ overflow
unfolding wrap
no_indent_run = refl

abbrev text_of : Outcome → List ℕ
text_of (returns out) =
    out 0 ∷ out 1 ∷ out 2 ∷ out 3 ∷ out 4 ∷ out 5 ∷ out 6 ∷ out 7 ∷ out 8 ∷ out 9 ∷ out 10 ∷ []
text_of _ = []

-- "ab\n\tcd\n\tef" and the NUL
tab_run :
    text_of (wrap words 4 one_tab) ≡ (97 ∷ 98 ∷ 10 ∷ 9 ∷ 99 ∷ 100 ∷ 10 ∷ 9 ∷ 101 ∷ 102 ∷ 0 ∷ [])
unfolding wrap
tab_run = refl
