-- ===== src/FreeList/Tests.antt =====
-- Runs of src/shmem_free_list.h.
use sandia_shmem.Base.{
  ℕ, ◌≡◌, ◌⊎◌, inl, inr, refl, Bool, false, List, [], ◌∷◌, Option, none, some, arith, ◌==◌,
  if◌then◌else◌,
}
use sandia_shmem.FreeList.{FreeList, alloc, free}
use sandia_shmem.FreeList.Laws.{Holds, Hands, mark, alloc_lem, free-Holds}

-- Items of 16 bytes, in a buffer at 1000.
abbrev two_items : FreeList
two_items = record {
  element_size = 16;
  nalloc = 0;
  allocs = 1000 ∷ [];
  head = some 1008;
  next = λ a. if a == 1008 then some 1024 else none;
}

abbrev answered : Option ℕ
answered = some 1000

abbrev unanswered : Option ℕ
unanswered = none

abbrev some_items : List ℕ
some_items = 1008 ∷ 1024 ∷ []

abbrev nothing_out : ℕ → Bool
nothing_out _ = false

two_items-Holds : Holds two_items (1008 ∷ 1024 ∷ []) nothing_out
two_items-Holds = record {
  chain = (refl, (refl, refl));
  distinct = (
    (λ m. elim m [ inl e ↦ absurd (omega (arith, e)) | inr none_left ↦ none_left ]),
    ((λ m. m), tt),
  );
  apart = λ c m. refl;
}

alloc_lem_example :
    ((some_items ≡ []) × (unanswered ≡ none) × (alloc none two_items ≡ (none, two_items)))
    ⊎ Hands two_items (alloc none two_items) nothing_out
alloc_lem_example = alloc_lem none two_items two_items-Holds tt

abbrev one_out : ℕ → Bool
one_out a = a == 2000

one_out-Holds : Holds two_items (1008 ∷ 1024 ∷ []) one_out
one_out-Holds = record {
  chain = two_items-Holds.chain;
  distinct = two_items-Holds.distinct;
  apart = λ c m. elim m [
    | inl e ↦ rw e refl
    | inr (inl e) ↦ rw e refl
    | inr (inr none_left) ↦ absurd none_left
  ];
}

free-Holds_example : Holds (free two_items 2000) (2000 ∷ 1008 ∷ 1024 ∷ []) (mark one_out 2000 false)
free-Holds_example = free-Holds two_items 2000 one_out-Holds refl

alloc_runs : (alloc none two_items).0 ≡ some 1008
unfolding alloc
alloc_runs = refl
