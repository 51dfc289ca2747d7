-- ===== src/Coords.antt =====
-- reborn_protocol/coords.py: the frames of coordinates. A coordinate in tiles is a whole number of
-- `unit`s to the tile, which is exact for the wire's multiples of 1/16; a count of segments and
-- an index into a board are plain integers.
pub mod Frames
use reborn_protocol.Base.{
  ℕ, ◌*◌, ◌+◌, Bool, not, ◌&&◌, ℤ, pos, floor_div, mod_ℤ, times, ltb_ℤ, ◌+ℤ◌,
}

abbrev pub unit : ℕ
unit = 256

abbrev pub level_size : ℕ
level_size = 64

abbrev pub level_tile_count : ℕ
level_tile_count = level_size * level_size

-- `math.floor(world / LEVEL_SIZE)`
unfoldable pub segment_index : ℤ → ℤ
segment_index world = floor_div world (level_size * unit)

unfoldable pub segment_at : ℤ → ℤ → ℤ × ℤ
unfolding segment_index
segment_at world_x world_y = (segment_index world_x, segment_index world_y)

-- `world % LEVEL_SIZE`
unfoldable pub local_coord : ℤ → ℤ
local_coord world = pos (mod_ℤ world (level_size * unit))

unfoldable pub world_to_local : ℤ → ℤ → ℤ × ℤ
world_to_local world_x world_y =
    (pos (mod_ℤ world_x (level_size * unit)), pos (mod_ℤ world_y (level_size * unit)))

unfoldable pub local_to_world : ℤ → ℤ → ℤ → ℤ → ℤ × ℤ
local_to_world local_x local_y grid_x grid_y =
    (local_x +ℤ times grid_x (level_size * unit), local_y +ℤ times grid_y (level_size * unit))

unfoldable pub segment_origin : ℤ → ℤ → ℤ × ℤ
segment_origin grid_x grid_y = (times grid_x (level_size * unit), times grid_y (level_size * unit))

-- The size is in whole tiles.
unfoldable pub gmap_extent : ℤ → ℤ → ℤ × ℤ
gmap_extent width_segments height_segments =
    (times width_segments level_size, times height_segments level_size)

-- Of whole tiles.
unfoldable pub level_index : ℕ → ℕ → ℕ
level_index local_x local_y = local_y * level_size + local_x

unfoldable pub in_level_bounds : ℤ → ℤ → Bool
in_level_bounds local_x local_y =
    (not (ltb_ℤ local_x (pos 0)) && ltb_ℤ local_x (pos (level_size * unit)))
    && (not (ltb_ℤ local_y (pos 0)) && ltb_ℤ local_y (pos (level_size * unit)))
