-- ===== src/Gs1/Lexer/Spaces.antt =====
-- reborn_protocol/gs1/lexer.py: `_skip_ws` goes on to the end of the spaces and comments.
use reborn_protocol.Base.{
  ℕ, zero, suc, ◌≤◌, ◌≡◌, [], ◌∷◌, true, false, ◌&&◌, length, arith, Bool-cases, inl, inr,
  if◌then◌else◌, ◌==◌,
}
use reborn_protocol.Gs1.Csv.{Text, next_is, rest_of}
use reborn_protocol.Gs1.Lexer.Scan.{is_blank, drop_while, after_comment, skip_rounds, skip_ws}
use reborn_protocol.Gs1.Lexer.Sound.Lengths.{
  length-rest_of, length-drop_while, length-after_comment,
}

-- No space and no comment stands at the front.
pub IsSettled : Text → Type 0
IsSettled [] = Unit
IsSettled (c ∷ rest) =
    (is_blank c ≡ false)
    × ((c == b'/' && next_is rest b'/') ≡ false)
    × ((c == b'/' && next_is rest b'*') ≡ false)

skip_rounds-IsSettled : (fuel : ℕ) (t : Text) → length t ≤ fuel → IsSettled (skip_rounds fuel t)
unfolding skip_rounds IsSettled
skip_rounds-IsSettled zero [] h = tt
skip_rounds-IsSettled zero (c ∷ t) h = absurd (omega arith)
skip_rounds-IsSettled (suc fuel) [] h = tt
skip_rounds-IsSettled (suc fuel) (c ∷ t) h =
    let to_line = drop_while (λ d. if d == b'\n' then false else true) t in
    let behind = after_comment (rest_of t) in
    let blank = skip_rounds-IsSettled fuel t (omega arith) in
    let line =
      skip_rounds-IsSettled fuel to_line
        (omega (arith, length-drop_while (λ d. if d == b'\n' then false else true) t)) in
    let comment =
      skip_rounds-IsSettled fuel behind
        (omega (arith, length-after_comment (rest_of t), length-rest_of t)) in
    elim (Bool-cases (is_blank c)) [
      | inl p ↦ rw p blank
      | inr p ↦ rw p (elim (Bool-cases (c == b'/' && next_is t b'/')) [
        | inl q ↦ rw q line
        | inr q ↦ rw q (elim (Bool-cases (c == b'/' && next_is t b'*')) [
          | inl r ↦ rw r comment
          | inr r ↦ rw r (p, q, r)
        ])
      ])
    ]

-- `_skip_ws` leaves a text with no space and no comment at its front: its loop does not stop earlier
-- than at the first character of something else, or at the end of the text.
pub skip_ws-IsSettled : (t : Text) → IsSettled (skip_ws t)
unfolding skip_ws
skip_ws-IsSettled t = skip_rounds-IsSettled (length t) t (omega arith)
