-- ===== src/Props/Stream.antt =====
-- reborn_protocol/props.py: `StreamPolicy` and `parse_prop_stream`.
pub mod Total
use reborn_protocol.Base.{
  ℕ, zero, suc, ◌+◌, ◌-◌, List, [], ◌∷◌, Bytes, Bool, true, false, not, ◌&&◌, ◌||◌, Option, none,
  some, length, get_or, ltb, leb, ◌==◌, if◌then◌else◌, ℤ, pos, negsuc, sub_ℕ,
}
use reborn_protocol.Props.Tables.{PropDesc, find_desc}
use reborn_protocol.Props.Decode.{Value, nothing, decode_value, payload_len}

pub record StreamPolicy : Type 0 where
  pub table : List PropDesc
  pub max_prop_id : ℕ
  pub colors_len : ℕ
  pub require_ascending : Bool
  pub ascending_exempt : List ℕ
  pub check_alignment : Bool
  pub require_full_consume : Bool
  pub unknown_payload_len : ℕ
  pub handle_empty : List ℕ

unfoldable pub with_colors_len : ℕ → StreamPolicy → StreamPolicy
with_colors_len n p = record p { colors_len = n }

-- `x in set`
pub is_in : ℕ → List ℕ → Bool
is_in x [] = false
is_in x (y ∷ ys) = x == y || is_in x ys

-- `Out` is what the handlers fill: `out`. A handler returns it changed.
abbrev pub Handlers : Type 0 → Type 0
Handlers Out = ℕ → Option (Value → Out → Out)

abbrev is_nothing : Value → Bool
is_nothing nothing = true
is_nothing v = false

-- `if handler is not None and (value is not None or prop_id in policy.handle_empty)`
pub handle : {Out : Type 0} → Handlers Out → StreamPolicy → ℕ → Value → Out → Out
handle handlers policy id v out = elim (handlers id) [
  | none ↦ out
  | some f ↦ if not (is_nothing v) || is_in id policy.handle_empty then f v out else out
]

-- `prop_id <= last_prop_id and last_prop_id not in policy.ascending_exempt`; `none` is the -1
-- of the beginning.
pub descends : StreamPolicy → ℕ → Option ℕ → Bool
descends policy id none = false
descends policy id (some last) = leb id last && not (is_in last policy.ascending_exempt)

-- The variables of the loop.
pub record Walk (Out : Type 0) : Type 0 where
  pub out : Out
  pub clean : Bool
  pub at : ℕ
  pub last_prop_id : Option ℕ

abbrev stopped : {Out : Type 0} → ℕ → Walk Out → Walk Out
stopped at w = record w { clean = false; at = at }

-- The payload of a property with a descriptor, or of an unknown one.
pub take_payload :
    {Out : Type 0} → Bytes → StreamPolicy → Handlers Out → ℕ → Option PropDesc → Walk Out → Walk Out
take_payload d policy handlers id none w = record w { at = w.at + policy.unknown_payload_len }
take_payload d policy handlers id (some desc) w =
    let (v, end) = decode_value desc d w.at policy.colors_len in
    record w { out = handle handlers policy id v w.out; at = end }

-- Whether the alignment check finds a payload that runs past the end.
pub misaligned : Bytes → StreamPolicy → Option PropDesc → ℕ → Bool
misaligned d policy none at = false
misaligned d policy (some desc) at =
    policy.check_alignment && ltb (length d) (at + payload_len desc d at policy.colors_len)

-- One round of the loop, at a place inside the data: the new state, and whether to go on.
pub step : {Out : Type 0} → Bytes → StreamPolicy → Handlers Out → Walk Out → Walk Out × Bool
step d policy handlers w =
    let byte = get_or d w.at 0 in
    let id = byte - 32 in
    let at = w.at + 1 in
    if ltb byte 32 || ltb policy.max_prop_id id
    then (stopped at w, false)
    else (let desc = find_desc policy.table id in
        let clean = if misaligned d policy desc at then false else w.clean in
        if policy.require_ascending && descends policy id w.last_prop_id
        then (stopped at w, false)
        else (
          take_payload d policy handlers id desc
              (record w { clean = clean; at = at; last_prop_id = some id }),
          true,
        ))

-- The loop; `none` is the model's fuel running out inside the data.
pub walk : {Out : Type 0} → ℕ → Bytes → StreamPolicy → Handlers Out → Walk Out → Option (Walk Out)
walk zero d policy handlers w = if ltb w.at (length d) then none else some w
walk (suc fuel) d policy handlers w = elim (ltb w.at (length d)) [
  | false ↦ some w
  | true ↦
      let (w', more) = step d policy handlers w in
      elim more [ true ↦ walk fuel d policy handlers w' | false ↦ some w' ]
]

-- The tests behind the loop.
pub judge : {Out : Type 0} → Bytes → StreamPolicy → Walk Out → Out × Bool × ℕ
judge d policy w =
    let clean = if ltb (length d) w.at then false else w.clean in
    let clean' = if policy.require_full_consume && not (w.at == length d) then false else clean in
    (w.out, clean', w.at)

-- Each round takes a byte at least, so the length of the data is enough fuel.
unfoldable pub parse_prop_stream :
    {Out : Type 0} → Bytes → ℕ → StreamPolicy → Handlers Out → Out → Option (Out × Bool × ℕ)
parse_prop_stream d at policy handlers out =
    elim (walk (length d) d policy handlers
      (record { out = out; clean = true; at = at; last_prop_id = none })) [
        | none ↦ none
        | some w ↦ some (judge d policy w)
      ]
