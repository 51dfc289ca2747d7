-- ===== src/Props/Stream/Total.antt =====
-- reborn_protocol/props.py: the loop of `parse_prop_stream`.
use reborn_protocol.Base.{
  ℕ, zero, suc, ◌+◌, ◌-◌, ◌≤◌, ◌<◌, ◌≡◌, Bytes, true, false, inl, inr, Option, none, some, length,
  get_or, ltb, if◌then◌else◌, arith, Bool-cases, ltb→lt, Bool, ◌⊎◌,
}
use reborn_protocol.Props.Tables.{PropDesc, find_desc}
use reborn_protocol.Props.Decode.Measure.{decode_value_forward}
use reborn_protocol.Props.Stream.{
  StreamPolicy, Handlers, Walk, take_payload, misaligned, step, walk, judge, parse_prop_stream,
}

module _ {Out : Type 0} (d : Bytes) (policy : StreamPolicy) (handlers : Handlers Out) where
  take_payload_forward :
      (id : ℕ) (desc : Option PropDesc) (w : Walk Out)
      → w.at ≤ length d
      → w.at ≤ (take_payload d policy handlers id desc w).at
  unfolding take_payload
  take_payload_forward id none w h = omega arith
  take_payload_forward id (some desc) w h = decode_value_forward desc d w.at policy.colors_len h

  -- A round that is not the last moves on.
  pub step_forward :
      (w : Walk Out)
      → w.at < length d
      → (step d policy handlers w).1 ≡ true
      → w.at < (step d policy handlers w).0.at
  unfolding step
  step_forward w h e =
      let id = get_or d w.at 0 - 32 in
      let w1 = record w {
        clean =
            if misaligned d policy (find_desc policy.table id) (w.at + 1) then false else w.clean;
        at = w.at + 1;
        last_prop_id = some id;
      } in
      ground (arith, take_payload_forward id (find_desc policy.table id) w1 (omega arith))

  -- The last round, where it stops early, is not clean and has not moved back.
  step_stopped :
      (w : Walk Out)
      → (step d policy handlers w).1 ≡ false
      → ((step d policy handlers w).0.clean ≡ false) × (w.at ≤ (step d policy handlers w).0.at)
  unfolding step
  step_stopped w e = ground arith

  -- The loop has ended, and was stopped early or has passed the last byte.
  abbrev Walked : ℕ → Option (Walk Out) → Type 0
  Walked at none = ⊥
  Walked at (some w) = (at ≤ w.at) × ((w.clean ≡ false) ⊎ (length d ≤ w.at))

  Walked-le : (m n : ℕ) (o : Option (Walk Out)) → m ≤ n → Walked n o → Walked m o
  Walked-le m n none h r = r
  Walked-le m n (some w) h r = (omega arith, r.1)

  walk-Walked :
      (fuel : ℕ) (w : Walk Out)
      → length d ≤ w.at + fuel
      → Walked w.at (walk fuel d policy handlers w)
  unfolding walk
  walk-Walked zero w h =
      let over : ltb w.at (length d) ≡ false = ground arith in
      rw (over, walk) (omega arith, inr (omega arith))
  walk-Walked (suc fuel) w h = elim (Bool-cases (ltb w.at (length d))) [
    | inr over ↦ rw (over, walk) (omega arith, inr (ground arith))
    | inl inside ↦ elim (Bool-cases (step d policy handlers w).1) [
      | inr ended ↦
          let last = step_stopped w ended in rw (inside, ended, walk) (last.1, inl (last.0))
      | inl more ↦
          let on = step_forward w (ltb→lt _ _ inside) more in
          rw (inside, more, walk)
            (Walked-le _ _ _ (omega arith)
              (walk-Walked fuel (step d policy handlers w).0 (omega arith)))
    ]
  ]

  -- The result, with the place where it ended.
  abbrev pub Ended : ℕ → Option (Out × Bool × ℕ) → Type 0
  Ended at none = ⊥
  Ended at (some (out, clean, end)) = (at ≤ end) × ((clean ≡ false) ⊎ (end ≡ length d))

  judged :
      (at : ℕ) (o : Option (Walk Out))
      → Walked at o
      → Ended at (elim o [ none ↦ none | some w ↦ some (judge d policy w) ])
  unfolding judge
  judged at none r = r
  judged at (some w) r = (r.0, by_place r.1)
    where
      by_place :
          (w.clean ≡ false) ⊎ (length d ≤ w.at) → ((judge d policy w).1 ≡ false) ⊎ (w.at ≡ length d)
      by_place (inl e) = inl (ground arith)
      by_place (inr h) = elim (Bool-cases (ltb (length d) w.at)) [
        | inl past ↦ inl (ground arith)
        | inr e ↦ inr (ground arith)
      ]

-- `parse_prop_stream` ends on all data, well formed or not, from any place and under any policy: the
-- model does not run out of its fuel, and so the loop stops by its own tests. It ends where it
-- began or behind, and unless it says that the stream is not clean it ends exactly at the end
-- of the data.
pub parse_prop_stream_total :
    {Out : Type 0} (d : Bytes) (at : ℕ) (policy : StreamPolicy) (handlers : Handlers Out)
    (out : Out)
    → Ended d policy handlers at (parse_prop_stream d at policy handlers out)
unfolding parse_prop_stream
parse_prop_stream_total d at policy handlers out =
    judged d policy handlers at
      (walk (length d) d policy handlers
        (record { out = out; clean = true; at = at; last_prop_id = none }))
      (walk-Walked d policy handlers (length d) _ (omega arith))
