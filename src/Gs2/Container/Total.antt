-- ===== src/Gs2/Container/Total.antt =====
-- reborn_protocol/gs2/container.py: the loops of `parse_container`.
use reborn_protocol.Base.{
  ℕ, zero, suc, ◌+◌, ◌≤◌, ◌<◌, ◌≡◌, ◌≢◌, refl, ap, List, [], ◌∷◌, ◌++◌, Bytes, ◌&&◌, ◌⊎◌, inl, inr,
  length, drop, length-drop, ◌==◌, arith, Bool-cases,
}
use reborn_protocol.Gs2.Container.{
  Text, ContainerError, Result, ok, err, stuck, ◌>>=◌, FunctionEntry, Gs2Container, empty_container,
  cons_string, read_id, cut_payload, read_u32, read_cstr, flags_of, next_segment, read_functions,
  read_strings, read_segment, parse_loop, parse_container,
}

-- Unless the model ran out of fuel, there is a value or one of the errors.
Result-cases :
    {Value : Type 0} (outcome : Result Value) (ran : outcome ≢ stuck)
    → ((value : Value) × (outcome ≡ ok value))
      ⊎ ((raised : ContainerError) × (outcome ≡ err raised))
Result-cases stuck ran = absurd (ran refl)
Result-cases (err raised) ran = inr (raised, refl)
Result-cases (ok value) ran = inl (value, refl)

read_u32-takes :
    (p : Bytes) (n : ℕ) (rest : Bytes) → read_u32 p ≡ ok (n, rest) → length rest + 4 ≡ length p
unfolding read_u32
read_u32-takes [] n rest e = cc
read_u32-takes (a ∷ []) n rest e = cc
read_u32-takes (a ∷ b ∷ []) n rest e = cc
read_u32-takes (a ∷ b ∷ c ∷ []) n rest e = cc
read_u32-takes (a ∷ b ∷ c ∷ d ∷ p) n rest e = ground arith

read_u32-ne-stuck : (p : Bytes) → read_u32 p ≢ stuck
unfolding read_u32
read_u32-ne-stuck [] e = cc
read_u32-ne-stuck (a ∷ []) e = cc
read_u32-ne-stuck (a ∷ b ∷ []) e = cc
read_u32-ne-stuck (a ∷ b ∷ c ∷ []) e = cc
read_u32-ne-stuck (a ∷ b ∷ c ∷ d ∷ p) e = cc

pub >>=-eq-ok :
    {Before After : Type 0} (run : Result Before) (next : Before → Result After) {done : After}
    → (run >>= next) ≡ ok done
    → (found : Before) × (run ≡ ok found) × (next found ≡ ok done)
>>=-eq-ok stuck next e = cc
>>=-eq-ok (err raised) next e = cc
>>=-eq-ok (ok found) next e = (found, refl, e)

>>=-ne-stuck :
    {Before After : Type 0} (run : Result Before) (next : Before → Result After)
    → run ≢ stuck
    → ((found : Before) → run ≡ ok found → next found ≢ stuck)
    → (run >>= next) ≢ stuck
>>=-ne-stuck stuck next ran runs = absurd (ran refl)
>>=-ne-stuck (err raised) next ran runs = λ e. cc
>>=-ne-stuck (ok found) next ran runs = runs found refl

cons_string_inv :
    (b : ℕ) (r : Result (Bytes × Bytes)) (name rest : Bytes)
    → (r >>= cons_string b) ≡ ok (name, rest)
    → (n : Bytes) × (r ≡ ok (n, rest))
cons_string_inv b (ok (n, r)) name rest e = (n, cc)
cons_string_inv b (err x) name rest e = ([], cc)
cons_string_inv b stuck name rest e = ([], cc)

read_cstr-takes : (p name rest : Bytes) → read_cstr p ≡ ok (name, rest) → length rest < length p
unfolding read_cstr
read_cstr-takes [] name rest e = cc
read_cstr-takes (zero ∷ p) name rest e = ground arith
read_cstr-takes (suc b ∷ p) name rest e =
    let (n, q) = cons_string_inv (suc b) (read_cstr p) name rest e in
    omega (arith, read_cstr-takes p n rest q)

read_cstr-ne-stuck : (p : Bytes) → read_cstr p ≢ stuck
unfolding read_cstr
read_cstr-ne-stuck [] e = cc
read_cstr-ne-stuck (zero ∷ p) e = cc
read_cstr-ne-stuck (suc b ∷ p) e = ground (arith, read_cstr-ne-stuck p)

flags_of-ne-stuck : (p : Bytes) → flags_of p ≢ stuck
flags_of-ne-stuck p = ground (arith, read_u32-ne-stuck p)

read_id-ne-stuck : (p : Bytes) → read_id p ≢ stuck
read_id-ne-stuck p = ground (arith, read_u32-ne-stuck p)

cut_payload-ne-stuck : (seg_id : ℕ) (size : ℕ × Bytes) → cut_payload seg_id size ≢ stuck
cut_payload-ne-stuck seg_id (n, p) = ground arith

next_segment-ne-stuck : (p : Bytes) → next_segment p ≢ stuck
unfolding next_segment
next_segment-ne-stuck p = >>=-ne-stuck (read_id p) _ (read_id-ne-stuck p) λ (seg_id, p1) e.
    >>=-ne-stuck (read_u32 p1) _ (read_u32-ne-stuck p1) λ size f. cut_payload-ne-stuck seg_id size

next_segment-takes :
    (p : Bytes) (seg_id : ℕ) (payload rest : Bytes)
    → next_segment p ≡ ok (seg_id, payload, rest)
    → length rest + 8 ≤ length p
unfolding next_segment
next_segment-takes p seg_id payload rest e =
    let ((n, p1), e1, f1) = >>=-eq-ok (read_id p) (λ r. read_u32 r.1 >>= cut_payload r.0) e in
    let ((m, p2), e2, f2) = >>=-eq-ok (read_u32 p1) (cut_payload n) f1 in
    let first : read_u32 p ≡ ok (n, p1) = ground arith in
    let left : drop m p2 ≡ rest = ground arith in
    omega (
      arith,
      read_u32-takes p n p1 first,
      read_u32-takes p1 m p2 e2,
      length-drop m p2,
      ap (λ (t : Bytes). length t) left,
    )

module _ (decode : Bytes → Text) where
  read_strings-ne-stuck :
      (fuel : ℕ) (p : Bytes) (found : List Text)
      → length p ≤ fuel
      → read_strings decode fuel p found ≢ stuck
  unfolding read_strings
  read_strings-ne-stuck fuel [] found h = λ e. cc
  read_strings-ne-stuck zero (b ∷ p) found h = absurd (omega arith)
  read_strings-ne-stuck (suc fuel) (b ∷ p) found h =
      elim (Result-cases (read_cstr (b ∷ p)) (read_cstr-ne-stuck (b ∷ p))) [
        | inl ((s, rest), e) ↦ rw e (
            read_strings-ne-stuck fuel rest (found ++ decode s ∷ [])
              (omega (arith, read_cstr-takes (b ∷ p) s rest e)))
        | inr (x, e) ↦ rw e (λ q. cc)
      ]

  read_functions-ne-stuck :
      (fuel : ℕ) (p : Bytes) (found : List FunctionEntry)
      → length p ≤ fuel
      → read_functions decode fuel p found ≢ stuck
  unfolding read_functions
  read_functions-ne-stuck fuel [] found h = λ e. cc
  read_functions-ne-stuck zero (b ∷ p) found h = absurd (omega arith)
  read_functions-ne-stuck (suc fuel) (b ∷ p) found h =
      elim (Result-cases (read_u32 (b ∷ p)) (read_u32-ne-stuck (b ∷ p))) [
        | inl ((n, p1), e) ↦ rw e (elim (Result-cases (read_cstr p1) (read_cstr-ne-stuck p1)) [
          | inl ((s, rest), q) ↦ rw q (
              read_functions-ne-stuck fuel rest
                (found ++ record { name = decode s; op_index = n } ∷ [])
                (omega (arith, read_u32-takes (b ∷ p) n p1 e, read_cstr-takes p1 s rest q)))
          | inr (x, q) ↦ rw q (λ q. cc)
        ])
        | inr (x, e) ↦ rw e (λ q. cc)
      ]

  read_segment-ne-stuck :
      (seg_id : ℕ) (payload : Bytes) (c : Gs2Container)
      → read_segment decode seg_id payload c ≢ stuck
  unfolding read_segment
  read_segment-ne-stuck seg_id payload c = ground (
    arith,
    flags_of-ne-stuck payload,
    read_functions-ne-stuck (length payload) payload c.functions (omega arith),
    read_strings-ne-stuck (length payload) payload c.strings (omega arith),
  )

  parse_loop-ne-stuck :
      (fuel : ℕ) (p : Bytes) (c : Gs2Container)
      → length p ≤ fuel
      → parse_loop decode fuel p c ≢ stuck
  unfolding parse_loop
  parse_loop-ne-stuck fuel [] c h = λ e. cc
  parse_loop-ne-stuck zero (b ∷ p) c h = absurd (omega arith)
  parse_loop-ne-stuck (suc fuel) (b ∷ p) c h =
      elim (Bool-cases (length (b ∷ p) == 1 && b == 0x0A)) [
        | inl e ↦ rw e (λ q. cc)
        | inr e ↦ rw e (
            >>=-ne-stuck _ _ (next_segment-ne-stuck (b ∷ p)) λ (seg_id, payload, rest) q.
              >>=-ne-stuck _ _ (read_segment-ne-stuck seg_id payload c) λ c' q'.
                parse_loop-ne-stuck fuel rest c'
                  (omega (arith, next_segment-takes (b ∷ p) seg_id payload rest q)))
      ]

-- On every input `parse_container` returns a container or raises an error of its own.
pub parse_container_total :
    (decode : Bytes → Text) (p : Bytes)
    → ((c : Gs2Container) × (parse_container decode p ≡ ok c))
      ⊎ ((e : ContainerError) × (parse_container decode p ≡ err e))
unfolding parse_container
parse_container_total decode p =
    Result-cases (parse_loop decode (length p) p empty_container)
      (parse_loop-ne-stuck decode (length p) p empty_container (omega arith))
