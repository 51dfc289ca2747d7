-- ===== src/Gs1/Lexer/Mode.antt =====
-- reborn_protocol/gs1/lexer.py: the modes of `Lexer`, and the argument types that give them.
use reborn_protocol.Base.{ℕ, ◌||◌, ◌==◌, if◌then◌else◌}

-- The modes, `default_mode` the outermost one; mode_p1, mode_p2 and mode_p3 are those of '(', ')', '<'.
pub data Mode : Type 0 where
  default_mode mode_e mode_v mode_s mode_r mode_l mode_m mode_b mode_i mode_c mode_g mode_u mode_d
        mode_x mode_z mode_p1 mode_p2 mode_p3 mode_f :
      Mode

-- `MODE_OF.get(c, DEFAULT)`
unfoldable pub mode_of : ℕ → Mode
mode_of c =
    if c == b'V'
    then mode_v
    else if c == b'E' || c == b'P'
    then mode_e
    else if c == b'S'
    then mode_s
    else if c == b'R'
    then mode_r
    else if c == b'L'
    then mode_l
    else if c == b'M'
    then mode_m
    else if c == b'B'
    then mode_b
    else if c == b'I'
    then mode_i
    else if c == b'C'
    then mode_c
    else if c == b'G'
    then mode_g
    else if c == b'U'
    then mode_u
    else if c == b'D'
    then mode_d
    else if c == b'X'
    then mode_x
    else if c == b'Z'
    then mode_z
    else if c == b'('
    then mode_p1
    else if c == b')'
    then mode_p2
    else if c == b'<'
    then mode_p3
    else if c == b'F'
    then mode_f
    else default_mode
