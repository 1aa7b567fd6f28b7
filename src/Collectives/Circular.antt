-- ===== src/Collectives/Circular.antt =====
-- `shmem_internal_circular_iter_next` of src/collectives.c.
use sandia_shmem.Base.{ℕ, ◌+◌, ◌-◌, ◌*◌, ◌%◌, ◌<◌, ◌≡◌, if◌then◌else◌, ltb, arith, dec_lt, ◌≤◌, ap}
use sandia_shmem.Base.Int.{ℤ, pos, ◌+ℤ◌, ◌-ℤ◌, ◌*ℤ◌, ltb_ℤ}
use native.Mathlib.Nat.{mod-eq_of_lt, mul-le-mul_left, mod_self}

unfoldable pub circular_iter_next : ℤ → ℤ → ℤ → ℤ → ℤ
circular_iter_next curr pe_start pe_stride pe_size =
    let last = pe_start +ℤ pe_stride *ℤ (pe_size -ℤ pos 1) in
    let next = curr +ℤ pe_stride in if ltb_ℤ last next then pe_start else next

circular_iter_next-pos :
    (c s d z : ℕ)
    → 0 < z
    → circular_iter_next (pos c) (pos s) (pos d) (pos z)
      ≡ (if ltb (s + d * (z - 1)) (c + d) then pos s else pos (c + d))
unfolding circular_iter_next ◌+ℤ◌ ◌-ℤ◌ ◌*ℤ◌
circular_iter_next-pos c s d z h = ground arith

-- In an active set <s, d, z> with positive stride, the PE of index k is followed by the PE of index
-- k + 1, and the last PE by the first.
pub circular_iter_next_lem :
    (s d z k : ℕ)
    → 0 < d
    → k < z
    → circular_iter_next (pos (s + d * k)) (pos s) (pos d) (pos z) ≡ pos (s + d * ((k + 1) % z))
circular_iter_next_lem s d z k hd lt = elim (dec_lt (k + 1) z) [
  | yes next ↦
      let room : d * (k + 1) ≤ d * (z - 1) = mul-le-mul_left d (omega arith) in
      let same : (k + 1) % z ≡ k + 1 = mod-eq_of_lt next in
      rw (circular_iter_next-pos (s + d * k) s d z (omega arith), same) (ground arith)
  | no last ↦
      let e : z ≡ k + 1 = omega arith in
      let same : (k + 1) % z ≡ 0 = rw e (mod_self (k + 1)) in
      rw (circular_iter_next-pos (s + d * k) s d z (omega arith), same)
        (ground (arith, ap (λ x. d * (x - 1)) e))
]
