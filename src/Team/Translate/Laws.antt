-- ===== src/Team/Translate/Laws.antt =====
-- `shmem_internal_team_translate_pe` of src/shmem_team.c against the numbering of both teams.
use sandia_shmem.Base.{ℕ, ◌+◌, ◌*◌, ◌<◌, ◌≤◌, ◌≡◌, ◌↔◌, some, arith}
use sandia_shmem.Base.Int.{pos, ◌+ℤ◌, ◌*ℤ◌}
use sandia_shmem.ActiveSet.{pe_in_active_set}
use sandia_shmem.ActiveSet.Laws.{pe_in_active_set_iff}
use sandia_shmem.Team.{Team}
use sandia_shmem.Team.Translate.{translate_pe}

-- The team's PEs are <s, d, z>.
pub record Spans (t : Team) (s d z : ℕ) : Type 0 where
  pub start : t.start ≡ pos s
  pub stride : t.stride ≡ pos d
  pub size : t.size ≡ pos z

world_pe : (s i d : ℕ) → pos s +ℤ pos i *ℤ pos d ≡ pos (s + i * d)
unfolding ◌+ℤ◌ ◌*ℤ◌
world_pe s i d = ground arith

-- Up to the size, the size included, the code looks up the PE s + i * d.
translate_pe-lookup :
    (src dest : Team) {s d z : ℕ} (i : ℕ)
    → Spans src s d z
    → i ≤ z
    → translate_pe (some src) (pos i) (some dest)
      ≡ pe_in_active_set (pos (s + i * d)) dest.start dest.stride dest.size
unfolding translate_pe
translate_pe-lookup src dest {s} {d} i span le =
    rw (span.start, span.stride, span.size) (rw (world_pe s i d) (ground arith))

-- From a team <s, d, z> to a team <s', d', z'> with positive stride, PE number i is translated to j
-- exactly when both number the same PE of the world. The number i = z, which numbers no PE of the
-- first team, is translated as if it did.
pub translate_pe_iff :
    (src dest : Team) {s d z s' d' z' : ℕ} (i j : ℕ)
    → Spans src s d z
    → Spans dest s' d' z'
    → 0 < d'
    → i ≤ z
    → (translate_pe (some src) (pos i) (some dest) ≡ pos j) ↔ ((s + i * d ≡ s' + d' * j) × (j < z'))
translate_pe_iff src dest {s} {d} {z} {s'} {d'} {z'} i j span span' positive le =
    rw (translate_pe-lookup src dest i span le) (
      rw (span'.start, span'.stride, span'.size)
        (pe_in_active_set_iff (s + i * d) s' d' z' j positive))

-- Between two teams with positive strides, translating a PE number of the first team to the second
-- and back gives that number again.
pub translate_pe_roundtrip :
    (src dest : Team) {s d z s' d' z' : ℕ} (i j : ℕ)
    → Spans src s d z
    → Spans dest s' d' z'
    → 0 < d
    → 0 < d'
    → i < z
    → translate_pe (some src) (pos i) (some dest) ≡ pos j
    → translate_pe (some dest) (pos j) (some src) ≡ pos i
translate_pe_roundtrip src dest i j span span' positive positive' lt e =
    let (same, inside) = (translate_pe_iff src dest i j span span' positive' (omega arith)).0 e in
    (translate_pe_iff dest src j i span' span positive (omega arith)).1 (omega (arith, same), lt)
