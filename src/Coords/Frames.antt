-- ===== src/Coords/Frames.antt =====
-- reborn_protocol/coords.py: `world_to_local`, `local_to_world`, `segment_at`, `level_index` and
-- `in_level_bounds` together.
use reborn_protocol.Base.{
  ℕ, ◌*◌, ◌<◌, ◌≡◌, ap₂, arith, ℤ, pos, negsuc, floor_div, mod_ℤ, times, ◌+ℤ◌,
}
use reborn_protocol.Coords.{
  unit, level_size, segment_index, segment_at, world_to_local, local_to_world, level_index,
  level_tile_count,
}

axis_back : (w : ℤ) → pos (mod_ℤ w 16384) +ℤ times (floor_div w 16384) 16384 ≡ w
unfolding mod_ℤ times floor_div ◌+ℤ◌
axis_back (pos n) = ground arith
axis_back (negsuc n) = ground arith

axis_segment :
    (l : ℕ) (g : ℤ)
    → l < 16384
    → (floor_div (pos l +ℤ times g 16384) 16384 ≡ g) × (mod_ℤ (pos l +ℤ times g 16384) 16384 ≡ l)
unfolding mod_ℤ times floor_div ◌+ℤ◌
axis_segment l (pos n) h = (ground arith, ground arith)
axis_segment l (negsuc n) h = (ground arith, ground arith)

-- A world coordinate that is a multiple of 1/256 tile is recovered from its local coordinate and its
-- segment. The rounding of floats nearer to 0 than that is outside of the model.
local_to_world-world_to_local :
    (x y : ℤ)
    → let (local_x, local_y) = world_to_local x y in
      let (grid_x, grid_y) = segment_at x y in local_to_world local_x local_y grid_x grid_y ≡ (x, y)
unfolding local_to_world world_to_local segment_at segment_index
local_to_world-world_to_local x y = ap₂ (λ a b. (a, b)) (axis_back x) (axis_back y)

-- A position inside a level of any segment of the grid, taken to the world, is found in that
-- segment at that position.
segment_at-local_to_world :
    (local_x local_y : ℕ) (grid_x grid_y : ℤ)
    → local_x < level_size * unit
    → local_y < level_size * unit
    → let (x, y) = local_to_world (pos local_x) (pos local_y) grid_x grid_y in
      (segment_at x y ≡ (grid_x, grid_y)) × (world_to_local x y ≡ (pos local_x, pos local_y))
unfolding local_to_world world_to_local segment_at segment_index
segment_at-local_to_world local_x local_y grid_x grid_y h k =
    let (seg_x, in_x) = axis_segment local_x grid_x h in
    let (seg_y, in_y) = axis_segment local_y grid_y k in
    (ap₂ (λ a b. (a, b)) seg_x seg_y, ap₂ (λ (a b : ℕ). (pos a, pos b)) in_x in_y)

-- Two tiles of a level with the same index into its board are the same tile, and the index is
-- below the number of tiles. The conditions: both tiles lie in the level.
level_index-injective :
    (x y x' y' : ℕ)
    → x < level_size
    → y < level_size
    → x' < level_size
    → y' < level_size
    → level_index x y ≡ level_index x' y'
    → (x ≡ x') × (y ≡ y') × (level_index x y < level_tile_count)
unfolding level_index
level_index-injective x y x' y' h k h' k' e = (omega arith, omega arith, omega arith)
