-- ===== src/Gs1/Csv/Scan.antt =====
-- reborn_protocol/gs1/csv.py: the loop of `gs1_csv_split`, round by round.
use reborn_protocol.Base.{
  ℕ, zero, suc, ◌≤◌, ◌<◌, ◌≡◌, refl, [], ◌∷◌, Bool, ◌⊎◌, inl, inr, some, length, arith,
}
use reborn_protocol.Gs1.Csv.{
  Text, Splitter, Round, go, stop, after_comma, scan_quoted, scan, finish, split_loop, split_from,
}

after_comma-shrinks :
    (value rest : Text) → after_comma value ≡ some rest → length rest < length value
unfolding after_comma
after_comma-shrinks [] rest e = cc
after_comma-shrinks (c ∷ value) rest e = ground (arith, after_comma-shrinks value rest)

scan-shrinks :
    (ignore : Bool) (s : Splitter) (c : ℕ) (value : Text) (s' : Splitter) (rest : Text)
    → scan ignore s c value ≡ go s' rest
    → length rest ≤ length value
unfolding scan scan_quoted
scan-shrinks ignore s c [] s' rest e = ground (arith, after_comma-shrinks [] rest)
scan-shrinks ignore s c (d ∷ value) s' rest e = ground (arith, after_comma-shrinks (d ∷ value) rest)

Round-cases :
    (r : Round)
    → ((s : Splitter) × (rest : Text) × (r ≡ go s rest)) ⊎ ((s : Splitter) × (r ≡ stop s))
Round-cases (go s rest) = inl (s, rest, refl)
Round-cases (stop s) = inr (s, refl)

-- More fuel than the value is long changes nothing.
pub split_loop_fuel :
    (f g : ℕ) (ignore : Bool) (s : Splitter) (value : Text)
    → length value ≤ f
    → length value ≤ g
    → split_loop f ignore s value ≡ split_loop g ignore s value
unfolding split_loop
split_loop_fuel zero zero ignore s [] h k = refl
split_loop_fuel zero (suc g) ignore s [] h k = refl
split_loop_fuel (suc f) zero ignore s [] h k = refl
split_loop_fuel (suc f) (suc g) ignore s [] h k = refl
split_loop_fuel zero g ignore s (c ∷ value) h k = absurd (omega arith)
split_loop_fuel (suc f) zero ignore s (c ∷ value) h k = absurd (omega arith)
split_loop_fuel (suc f) (suc g) ignore s (c ∷ value) h k =
    elim (Round-cases (scan ignore s c value)) [
      | inl (s', rest, e) ↦
          let less = scan-shrinks ignore s c value s' rest e in
          rw (e, split_loop) (split_loop_fuel f g ignore s' rest (omega arith) (omega arith))
      | inr (s', e) ↦ rw (e, split_loop)
    ]

pub split_from-go :
    (ignore : Bool) (s : Splitter) (c : ℕ) (value : Text) {s' : Splitter} {rest : Text}
    → scan ignore s c value ≡ go s' rest
    → split_from ignore s (c ∷ value) ≡ split_from ignore s' rest
unfolding split_from
split_from-go ignore s c value {s'} {rest} e =
    let less = scan-shrinks ignore s c value s' rest e in
    unfold split_loop in
    rw (e, split_loop)
      (split_loop_fuel (length value) (length rest) ignore s' rest less (omega arith))

pub split_from-stop :
    (ignore : Bool) (s : Splitter) (c : ℕ) (value : Text) {s' : Splitter}
    → scan ignore s c value ≡ stop s'
    → split_from ignore s (c ∷ value) ≡ finish s'
unfolding split_from split_loop
split_from-stop ignore s c value e = rw (e, split_loop)

pub split_from-nil : (ignore : Bool) (s : Splitter) → split_from ignore s [] ≡ finish s
unfolding split_from split_loop
split_from-nil ignore s = refl
