-- ===== src/Base/Hex.antt =====
-- Numbers in hexadecimal, and the integers that Python's `float` takes.
use Prim.Native.Nat.{ℕ, ◌+◌, ◌-◌, ◌^◌}
use mathlib.Core.Bool.{Bool, ◌&&◌}
use mathlib.Core.Option.{Option, none, some}
use reborn_protocol.Base.Tests.{leb, if◌then◌else◌}

-- 0-9, a-f and A-F.
abbrev pub digit_of : ℕ → Option ℕ
digit_of c =
    if leb b'0' c && leb c b'9'
    then some (c - b'0')
    else if leb b'a' c && leb c b'f'
    then some (c - b'a' + 10)
    else if leb b'A' c && leb c b'F'
    then some (c - b'A' + 10)
    else none

-- `float` raises OverflowError from the integer on that is half-way between the largest float and 2 ^ 1024.
unfoldable pub float_overflows : ℕ → Bool
float_overflows n = leb (2 ^ 1024 - 2 ^ 970) n
