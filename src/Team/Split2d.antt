-- ===== src/Team/Split2d.antt =====
-- `shmem_internal_team_split_2d` of src/shmem_team.c: the arguments of its calls of
-- `shmem_internal_team_split_strided`. The number of teams along the x axis is
-- `ceil(parent_size / (float) xrange)`, here the exact ceiling, which the rounding to float can miss
-- only where the parent has more than 2^24 PEs.
pub mod Laws
use sandia_shmem.Base.{ℕ, ◌+◌, ◌*◌, ◌-◌, ◌/◌, ◌%◌, ◌&&◌, not, Option, if◌then◌else◌, ◌==◌, ltb}
use sandia_shmem.Base.Int.{ℤ, pos}
use sandia_shmem.Team.{Config}
use sandia_shmem.Team.Split.{Split}

-- `xrange` after the cut to the size of the parent
unfoldable pub cut : ℕ → ℕ → ℕ
cut size xrange = if ltb size xrange then size else xrange

unfoldable pub num_xteams : ℕ → ℕ → ℕ
num_xteams size xrange = (size + xrange - 1) / xrange

unfoldable pub xsize : ℕ → ℕ → ℕ → ℕ
unfolding num_xteams
xsize size xrange i =
    if (i == num_xteams size xrange - 1) && not (size % xrange == 0) then size % xrange else xrange

unfoldable pub ysize : ℕ → ℕ → ℕ → ℕ
ysize size xrange i =
    if not (size % xrange == 0) && ltb i (size % xrange) then size / xrange + 1 else size / xrange

-- The arguments of the i-th call of each loop, for a parent of this stride and size.
unfoldable pub xteam : ℕ → ℕ → ℕ → ℕ → Option Config → ℤ → Split
unfolding xsize
xteam stride size xrange i config mask = record {
  pe_start = pos (i * xrange);
  pe_stride = pos stride;
  pe_size = pos (xsize size xrange i);
  config = config;
  config_mask = mask;
}

unfoldable pub yteam : ℕ → ℕ → ℕ → ℕ → Option Config → ℤ → Split
unfolding ysize
yteam stride size xrange i config mask = record {
  pe_start = pos i;
  pe_stride = pos (xrange * stride);
  pe_size = pos (ysize size xrange i);
  config = config;
  config_mask = mask;
}
