-- ===== src/Props/Lanes.antt =====
-- reborn_protocol/props.py: `_read_gbyte` and `_gbyte`, numbers in any count of lanes.
pub mod Same
use reborn_protocol.Base.{
  ℕ, zero, suc, ◌+◌, ◌-◌, ◌*◌, ◌/◌, ◌%◌, ◌^◌, ◌≤◌, min, List, [], ◌∷◌, Bytes, Option, none, some,
  length, get_or, ltb, leb, ◌==◌, if◌then◌else◌, ℤ, pos, pos_part, sub_ℕ, shl, mod_ℤ, ◌+ℤ◌, map,
}
use reborn_protocol.Codec.Builder.{offset}

-- `value += (data[pos + i] - 32) << (7 * (count - 1 - i))`, with `k` bytes left.
unfoldable pub lane_sum : Bytes → ℕ → ℕ → ℤ → ℤ
lane_sum d at zero value = value
lane_sum d at (suc k) value =
    lane_sum d (at + 1) k (value +ℤ shl (sub_ℕ (get_or d at 0) 32) (7 * k))

-- The value, or `none` if the data is too short, and the place behind it.
unfoldable pub read_gbyte : Bytes → ℕ → ℕ → Option ℕ × ℕ
read_gbyte d at count =
    if ltb (length d) (at + count)
    then (none, length d)
    else (let value = lane_sum d at count (pos 0) in
        if count == 5
        then (some (mod_ℤ value (2 ^ 32)), at + count)
        else (some (pos_part value), at + count))

-- `t` in `k` lanes and a last one.
unfoldable pub lanes_of : ℕ → ℕ → List ℕ
lanes_of zero t = min t 223 ∷ []
lanes_of (suc k) t =
    let lane = min (t / 2 ^ (7 * suc k)) 223 in lane ∷ lanes_of k (t - lane * 2 ^ (7 * suc k))

unfoldable pub encode_gbyte : ℤ → ℕ → Bytes
unfolding lanes_of
encode_gbyte value count = map offset (lanes_of (count - 1) (pos_part value))

-- `_gchar_unsafe`
unfoldable pub gchar_unsafe : ℕ → Bytes
gchar_unsafe value = offset value ∷ []
