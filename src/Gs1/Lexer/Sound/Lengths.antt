-- ===== src/Gs1/Lexer/Sound/Lengths.antt =====
-- reborn_protocol/gs1/lexer.py: the searches leave no more text than they were given.
use reborn_protocol.Base.{
  ℕ, zero, suc, ◌+◌, ◌==◌, ◌<◌, ◌≤◌, ◌≡◌, [], ◌∷◌, Bool, true, false, Option, none, some, length,
  arith, if◌then◌else◌,
}
use reborn_protocol.Gs1.Csv.{Text, rest_of}
use reborn_protocol.Gs1.Lexer.Scan.{
  is_digit, is_hex, drop_while, after_prefix, after_comment, skip_rounds, skip_ws, match_real,
  match_messagecode, short_code, quoted_string, digits, fraction, hexadecimal, with_fraction,
}

pub length-rest_of : (t : Text) → length (rest_of t) ≤ length t
length-rest_of [] = omega arith
length-rest_of (c ∷ t) = omega arith

pub length-drop_while : (p : ℕ → Bool) (t : Text) → length (drop_while p t) ≤ length t
unfolding drop_while
length-drop_while p [] = omega arith
length-drop_while p (c ∷ t) = ground (arith, length-drop_while p t)

pub length-after_prefix :
    (prefix t : Text) {rest : Text}
    → after_prefix prefix t ≡ some rest
    → length prefix + length rest ≡ length t
unfolding after_prefix
length-after_prefix [] t e = ground arith
length-after_prefix (d ∷ prefix) [] e = ground arith
length-after_prefix (d ∷ prefix) (c ∷ t) {rest} e =
    ground (arith, length-after_prefix prefix t {rest = rest})

pub length-after_comment : (t : Text) → length (after_comment t) ≤ length t
unfolding after_comment
length-after_comment [] = omega arith
length-after_comment (c ∷ t) = ground (arith, length-after_comment t, length-rest_of t)

length-skip_rounds : (fuel : ℕ) (t : Text) → length (skip_rounds fuel t) ≤ length t
unfolding skip_rounds
length-skip_rounds zero t = omega arith
length-skip_rounds (suc fuel) [] = omega arith
length-skip_rounds (suc fuel) (c ∷ t) =
    let line = drop_while (λ d. if d == b'\n' then false else true) t in
    let comment = after_comment (rest_of t) in
    ground (
      arith,
      length-skip_rounds fuel t,
      length-skip_rounds fuel line,
      length-skip_rounds fuel comment,
      length-drop_while (λ d. if d == b'\n' then false else true) t,
      length-after_comment (rest_of t),
      length-rest_of t,
    )

pub length-skip_ws : (t : Text) → length (skip_ws t) ≤ length t
unfolding skip_ws
length-skip_ws t = length-skip_rounds (length t) t

pub length-quoted_string : (t : Text) → length (quoted_string t).1 ≤ length t
unfolding quoted_string
length-quoted_string [] = omega arith
length-quoted_string (c ∷ []) = ground arith
length-quoted_string (c ∷ d ∷ t) =
    ground (arith, length-quoted_string t, length-quoted_string (d ∷ t))

-- What a match leaves is shorter than `n`.
abbrev pub IsShort : ℕ → Option (Text × Text) → Type 0
IsShort n none = Unit
IsShort n (some (found, rest)) = length rest < n

digits-IsShort : (t : Text) → IsShort (length t) (digits t)
unfolding digits
digits-IsShort [] = tt
digits-IsShort (c ∷ t) = ground (arith, length-drop_while is_digit t)

fraction-IsShort : (t : Text) → IsShort (length t) (fraction t)
unfolding fraction
fraction-IsShort [] = tt
fraction-IsShort (c ∷ t) = ground (arith, digits-IsShort t)

hexadecimal-IsShort : (t : Text) → IsShort (length t) (hexadecimal t)
unfolding hexadecimal
hexadecimal-IsShort [] = tt
hexadecimal-IsShort (z ∷ []) = tt
hexadecimal-IsShort (z ∷ x ∷ []) = tt
hexadecimal-IsShort (z ∷ x ∷ h ∷ t) = ground (arith, length-drop_while is_hex t)

with_fraction-IsShort :
    (n : ℕ) (whole rest : Text) → length rest < n → IsShort n (some (with_fraction (whole, rest)))
unfolding with_fraction
with_fraction-IsShort n whole rest h = ground (arith, fraction-IsShort rest)

pub match_real-IsShort : (t : Text) → IsShort (length t) (match_real t)
unfolding match_real
match_real-IsShort t =
    by_matches (hexadecimal t) (digits t) (hexadecimal-IsShort t) (digits-IsShort t)
  where
    by_matches :
        (x d : Option (Text × Text))
        → IsShort (length t) x
        → IsShort (length t) d
        → IsShort (length t) (elim x [
          | some found ↦ some found
          | none ↦ elim d [ some found ↦ some (with_fraction found) | none ↦ fraction t ]
        ])
    by_matches (some found) d h k = h
    by_matches none (some (whole, rest)) h k = with_fraction-IsShort _ whole rest k
    by_matches none none h k = fraction-IsShort t

pub match_messagecode-IsShort : (t : Text) → IsShort (length t) (match_messagecode t)
unfolding match_messagecode short_code
match_messagecode-IsShort [] = tt
match_messagecode-IsShort (c ∷ []) = ground arith
match_messagecode-IsShort (c ∷ d ∷ t) = ground (arith, length-drop_while is_digit t)
