-- ===== src/Heap/Laws.antt =====
-- The bounds of the symmetric heap of src/symmetric_heap_c.c, over any sequence of calls.
use sandia_shmem.Base.{
  ℕ, ◌+◌, ◌≤◌, ◌<◌, ◌≡◌, refl, List, [], ◌∷◌, Option, none, some, arith, map, ◌⊎◌, inl, inr, ◌∙◌,
  ap, dec_lt, sym,
}
use sandia_shmem.Base.Int.{ℤ, pos, ◌+ℤ◌, ◌-ℤ◌}
use sandia_shmem.Heap.{Heap, get_next, symmetric_init}

-- The pointer stays in the heap.
pub record IsValid (h : Heap) : Type 0 where
  pub above : h.base ≤ h.curr
  pub within : h.curr ≤ h.base + h.length

-- The results of calls one after the other, and the heap at the end.
unfoldable pub results : Heap → List ℤ → List (Option ℕ)
results h [] = []
results h (incr ∷ incrs) = (get_next h incr).orig ∷ results (get_next h incr).heap incrs

unfoldable pub after : Heap → List ℤ → Heap
after h [] = h
after h (incr ∷ incrs) = after (get_next h incr).heap incrs

get_next-IsValid : (h : Heap) (incr : ℤ) → IsValid h → IsValid (get_next h incr).heap
unfolding get_next ◌+ℤ◌ ◌-ℤ◌
get_next-IsValid h incr v = record {
  above = ground (arith, v.above);
  within = ground (arith, v.above, v.within);
}

same_heap :
    (h : Heap) (incr : ℤ)
    → ((get_next h incr).heap.base ≡ h.base) × ((get_next h incr).heap.length ≡ h.length)
unfolding get_next
same_heap h incr = (ground arith, ground arith)

after_lem :
    (incrs : List ℤ) (h : Heap)
    → IsValid h
    → IsValid (after h incrs)
      × ((after h incrs).base ≡ h.base)
      × ((after h incrs).length ≡ h.length)
unfolding after
after_lem [] h v = (v, refl, refl)
after_lem (incr ∷ incrs) h v =
    let (valid, base, len) = after_lem incrs (get_next h incr).heap (get_next-IsValid h incr v) in
    let (same_base, same_len) = same_heap h incr in (valid, base ∙ same_base, len ∙ same_len)

fresh-IsValid : (memory len : ℕ) → IsValid (record { base = memory; length = len; curr = memory })
fresh-IsValid memory len = record { above = omega arith; within = omega arith }

heap_or : Heap → Option Heap → Heap
heap_or h none = h
heap_or h (some h') = h'

-- From a fresh heap, any sequence of calls, with increments of either sign, leaves the pointer between
-- the start and the end of the heap, which do not move.
pub after-symmetric_init :
    (size overhead memory : ℕ) (incrs : List ℤ) {h : Heap}
    → symmetric_init size overhead (some memory) ≡ some h
    → let h' = after h incrs in
      (h'.base ≡ memory)
      × (h'.length ≡ size + overhead)
      × (memory ≤ h'.curr)
      × (h'.curr ≤ memory + (size + overhead))
unfolding symmetric_init heap_or
after-symmetric_init size overhead memory incrs {h} e =
    let same : record { base = memory; length = size + overhead; curr = memory } ≡ h =
      ap (heap_or h) e in
    let (v, base, len) = after_lem incrs _ (fresh-IsValid memory (size + overhead)) in
    rw (sym same) (base, len, omega (arith, v.above, base), omega (arith, v.within, base, len))

-- Requests of these sizes, answered in order from address `lo` on: a block of the size asked for at the end of
-- those before it, or a refusal where the heap ends before the block would.
abbrev pub Laid : ℕ → ℕ → List ℕ → List (Option ℕ) → Type 0
Laid lo hi [] [] = Unit
Laid lo hi (n ∷ ns) (none ∷ rs) = (hi < lo + n) × Laid lo hi ns rs
Laid lo hi (n ∷ ns) (some p ∷ rs) = (p ≡ lo) × (p + n ≤ hi) × Laid (p + n) hi ns rs
Laid lo hi _ _ = ⊥

get_next-pos :
    (h : Heap) (n : ℕ)
    → IsValid h
    → ((get_next h (pos n) ≡ record { orig = none; heap = h }) × (h.base + h.length < h.curr + n))
      ⊎ ((get_next h (pos n) ≡ record { orig = some h.curr; heap = record h { curr = h.curr + n } })
          × (h.curr + n ≤ h.base + h.length))
unfolding get_next ◌+ℤ◌ ◌-ℤ◌
get_next-pos h n v = elim (dec_lt (h.base + h.length) (h.curr + n)) [
  | yes over ↦ inl (ground (arith, v.above), over)
  | no room ↦ inr (ground (arith, v.above), omega arith)
]

-- In a valid heap, requests of sizes 0 or more are laid out one after the other from the pointer on, without
-- overlap and inside the heap; one is refused exactly when it would pass the end of the heap, and a
-- refusal changes nothing for those after it.
pub results-Laid :
    (ns : List ℕ) (h : Heap)
    → IsValid h
    → Laid h.curr (h.base + h.length) ns (results h (map pos ns))
unfolding results
results-Laid [] h v = tt
results-Laid (n ∷ ns) h v = elim (get_next-pos h n v) [
  | inl (e, over) ↦ rw e (over, results-Laid ns h v)
  | inr (e, room) ↦ rw e (
    refl,
    room,
    results-Laid ns (record h { curr = h.curr + n })
        (record { above = omega (arith, v.above); within = room }),
  )
]
