-- ===== src/Props/Names.antt =====
-- reborn_protocol/props.py: the names of images that the server makes up.
use reborn_protocol.Base.{
  ◌+◌, [], ◌∷◌, ◌++◌, Bool, false, ◌&&◌, ◌||◌, leb, ltb, ◌==◌, if◌then◌else◌, ℤ, pos, negsuc,
}
use reborn_protocol.Codec.Reader.{Text}

-- `'.' in image`
pub has_dot : Text → Bool
has_dot [] = false
has_dot (c ∷ t) = c == b'.' || has_dot t

abbrev pub dot_gif : Text
dot_gif = b'.' ∷ b'g' ∷ b'i' ∷ b'f' ∷ []

abbrev pub dot_png : Text
dot_png = b'.' ∷ b'p' ∷ b'n' ∷ b'g' ∷ []

-- A power that has a name is one digit.
pub preset_power_image : Text → ℤ → Bool → Text
preset_power_image prefix (pos power) classic =
    if ltb 0 power && leb power 4
    then prefix ++ (power + b'0') ∷ (if classic then dot_gif else dot_png)
    else []
preset_power_image prefix (negsuc power) classic = []

pub with_gif_fallback : Text → Text
with_gif_fallback [] = []
with_gif_fallback (c ∷ image) = if has_dot (c ∷ image) then c ∷ image else (c ∷ image) ++ dot_gif
