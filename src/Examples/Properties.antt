-- ===== src/Examples/Properties.antt =====
-- Streams of properties at concrete inputs.
use reborn_protocol.Base.{
  ◌+◌, ◌≡◌, refl, List, [], ◌∷◌, ◌++◌, Bytes, true, none, some, arith, length, pos, ◌+ℤ◌, shl,
}
use reborn_protocol.Codec.Reader.{Text}
use reborn_protocol.Props.Tables.{PropDesc, swordpower, string, player_props}
use reborn_protocol.Props.Lanes.{encode_gbyte, lane_sum}
use reborn_protocol.Props.Decode.{
  Value, powered, decode_value, decode_wire, read_string, payload_len, fixed_len, min_len,
}
use reborn_protocol.Props.Decode.Measure.{decode_value-payload_len}
use reborn_protocol.Props.Encode.{encode_value}
use reborn_protocol.Props.Encode.Images.{encode_value_bare_power}
use reborn_protocol.Props.Encode.RoundTrip.{Fits, of_swordpower, code_of, decode_value-encode_value}
use reborn_protocol.Props.Stream.{StreamPolicy, Handlers, parse_prop_stream}
use reborn_protocol.Props.Stream.Total.{Ended, parse_prop_stream_total}

abbrev sword : PropDesc
sword = record { id = 8; wire = swordpower; width = 1; bias = 30 }

abbrev nickname : PropDesc
nickname = record { id = 0; wire = string; width = 1; bias = 0 }

-- Behind the first byte, a power of 2 with no image, and the text `hi`.
abbrev data_bytes : Bytes
data_bytes = 40 ∷ 34 ∷ 32 ∷ 34 ∷ 104 ∷ 105 ∷ []

-- Nothing but texts is encoded as a text below.
abbrev no_text : Value → Text
no_text v = []

encode_value_bare_power_example :
    (decode_value sword data_bytes 1 5 ≡ (powered (pos 2) none, 2))
    × (encode_value no_text sword (powered (pos 2) none) 5
        ≡ some (encode_gbyte (pos 32) 1 ++ 36 ∷ b'N' ∷ b'o' ∷ b'n' ∷ b'e' ∷ []))
encode_value_bare_power_example =
    encode_value_bare_power no_text sword data_bytes 1 5 refl (omega arith) (omega arith)

decode_value-payload_len_example :
    (decode_value nickname data_bytes 3 5).1 ≡ 3 + payload_len nickname data_bytes 3 5
unfolding decode_value lane_sum ◌+ℤ◌ shl
decode_value-payload_len_example =
    decode_value-payload_len nickname data_bytes 3 5
      (unfold payload_len fixed_len min_len decode_wire read_string in omega arith)

abbrev policy : StreamPolicy
policy = record {
  table = player_props;
  max_prop_id = 124;
  colors_len = 5;
  require_ascending = true;
  ascending_exempt = [];
  check_alignment = true;
  require_full_consume = true;
  unknown_payload_len = 0;
  handle_empty = [];
}

-- Handlers that collect the values of all properties.
abbrev collect : Handlers (List Value)
collect id = some (λ v out. v ∷ out)

parse_prop_stream_total_example :
    Ended data_bytes policy collect 0 (parse_prop_stream data_bytes 0 policy collect [])
parse_prop_stream_total_example = parse_prop_stream_total data_bytes 0 policy collect []

sword-Fits : Fits 1 30 swordpower (powered (pos 2) (some (104 ∷ 105 ∷ [])))
sword-Fits =
    of_swordpower 2 (104 ∷ 105 ∷ []) (omega arith)
      ((omega arith, (omega arith, tt)), (omega arith, omega arith, omega arith, omega arith))
      (omega arith)

decode_value-encode_value_example :
    let s = code_of (encode_value no_text sword (powered (pos 2) (some (104 ∷ 105 ∷ []))) 5) in
    (encode_value no_text sword (powered (pos 2) (some (104 ∷ 105 ∷ []))) 5 ≡ some s)
    × (decode_value sword (33 ∷ 34 ∷ [] ++ (s ++ data_bytes)) 2 5
        ≡ (powered (pos 2) (some (104 ∷ 105 ∷ [])), 2 + length s))
decode_value-encode_value_example =
    decode_value-encode_value no_text sword (powered (pos 2) (some (104 ∷ 105 ∷ []))) 5
      (33 ∷ 34 ∷ []) data_bytes sword-Fits
