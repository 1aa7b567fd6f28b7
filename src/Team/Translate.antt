-- ===== src/Team/Translate.antt =====
-- `shmem_internal_team_translate_pe` of src/shmem_team.c.
pub mod Laws
use sandia_shmem.Base.{Option, none, some, if◌then◌else◌}
use sandia_shmem.Base.Int.{ℤ, ◌+ℤ◌, ◌*ℤ◌, ltb_ℤ}
use sandia_shmem.ActiveSet.{minus_one, pe_in_active_set}
use sandia_shmem.Team.{Team}

-- `none` is SHMEM_TEAM_INVALID. The assertion on `src_pe_world` is compiled out of normal builds.
unfoldable pub translate_pe : Option Team → ℤ → Option Team → ℤ
translate_pe none src_pe dest = minus_one
translate_pe (some src) src_pe none = minus_one
translate_pe (some src) src_pe (some dest) =
    if ltb_ℤ src.size src_pe
    then minus_one
    else let src_pe_world = src.start +ℤ src_pe *ℤ src.stride in
      pe_in_active_set src_pe_world dest.start dest.stride dest.size
