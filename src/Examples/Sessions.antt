-- ===== src/Examples/Sessions.antt =====
-- Codecs, sessions and streams of packets at concrete inputs.
use reborn_protocol.Base.{
  ◌≡◌, ap, append-nil, refl, List, [], ◌∷◌, ◌++◌, map, Bytes, true, false, some, take, drop, arith,
}
use mathlib.Core.List.{flatten}
use reborn_protocol.Encryption.Compression.{game_compression, list_server_compression}
use reborn_protocol.Codec.Frame.{prefixed}
use reborn_protocol.Codec.Buffer.{new_buffer, add_data, next_packet, get_packets}
use reborn_protocol.Codec.Buffer.Drain.{buffered}
use reborn_protocol.Codec.Buffer.Stream.{receive, receive-flatten, on_wire, get_packets-on_wire}
use reborn_protocol.Codec.Gen2
use reborn_protocol.Codec.Gen3
use reborn_protocol.Codec.Gen3.{prepare}
use reborn_protocol.Codec.Gen3.Insertion.{HasNoNewline, remove_filler, send_packet-remove_filler}
use reborn_protocol.Codec.Gen4
use reborn_protocol.Codec.Gen5
use reborn_protocol.Codec.Gen5.{Gen5Codec, send_packet, recv_packet}
use reborn_protocol.Codec.Server
use reborn_protocol.Codec.Server.{ServerCodec, new_server, encode_packet, decode_packet}
use reborn_protocol.Codec.Server.Login.{handshake}
use reborn_protocol.Codec.Session.{
  send_all, read_all, kept, encode, client_to_server, server_to_client,
}
use reborn_protocol.Examples.Store.{store, store-IsLossless}

abbrev hello : Bytes
hello = 72 ∷ 69 ∷ 76 ∷ 76 ∷ 79 ∷ []

abbrev bye : Bytes
bye = 66 ∷ 89 ∷ 69 ∷ []

abbrev two_packets : List Bytes
two_packets = hello ∷ bye ∷ []

abbrev client : Gen5Codec
client = Gen5.new_codec 42 list_server_compression

-- A server behind the login.
abbrev server : ServerCodec
server = record (new_server 42) { first_decode = false }

abbrev sent : Bytes
sent = (send_all (send_packet store) two_packets client).0

abbrev answered : Bytes
answered = (send_all (encode store) two_packets server).0

-- The bytes arrive with a cut inside the first packet.
abbrev cut : Bytes → List Bytes
cut d = take 3 d ∷ drop 3 d ∷ []

flatten-cut : (d : Bytes) → flatten (cut d) ≡ d
unfolding flatten
flatten-cut [] = refl
flatten-cut (a ∷ []) = refl
flatten-cut (a ∷ b ∷ []) = refl
flatten-cut (a ∷ b ∷ c ∷ d) = ap (λ t. a ∷ b ∷ c ∷ t) (append-nil d)

client_to_server_example :
    let (packets, rest) = receive new_buffer (cut sent) in
    let (read, s') = read_all (decode_packet store) packets server in
    (read ≡ map some (kept store list_server_compression two_packets))
    × (rest ≡ new_buffer)
    × (s'.in_codec ≡ (send_all (send_packet store) two_packets client).1.out_codec)
unfolding Gen5.new_codec new_server
client_to_server_example =
    client_to_server store store-IsLossless client server two_packets (cut sent) refl refl
      (omega arith) (flatten-cut sent)

server_to_client_example :
    let (packets, rest) = receive new_buffer (cut answered) in
    let (read, c') = read_all (recv_packet store) packets client in
    (read ≡ map some (kept store game_compression two_packets))
    × (rest ≡ new_buffer)
    × (c'.in_codec ≡ (send_all (encode store) two_packets server).1.out_codec)
unfolding Gen5.new_codec new_server
server_to_client_example =
    server_to_client store store-IsLossless server client two_packets (cut answered) refl
      (omega arith) (flatten-cut answered)

handshake_example :
    let (got_login, s) = decode_packet store (store.zlib_compress hello) (new_server 0) in
    let (wire, s') = encode_packet store bye true (Server.set_key 42 s) in
    let c = Gen5.set_key 42 (Gen5.new_codec 0 game_compression) in
    let (got_response, c') = recv_packet store (store.zlib_compress bye) c in
    (got_login ≡ some hello)
    × (wire ≡ prefixed (store.zlib_compress bye))
    × (got_response ≡ some bye)
    × (s'.in_codec ≡ c'.out_codec)
    × (c'.in_codec ≡ s'.out_codec)
    × (s'.first_decode ≡ false)
handshake_example =
    handshake store store-IsLossless 42 game_compression hello bye (omega arith) (omega arith)
      (omega arith)

receive-flatten_example :
    receive (buffered (0 ∷ [])) ((2 ∷ 65 ∷ []) ∷ (66 ∷ 0 ∷ []) ∷ [])
    ≡ get_packets (add_data (flatten ((2 ∷ 65 ∷ []) ∷ (66 ∷ 0 ∷ []) ∷ [])) (buffered (0 ∷ [])))
receive-flatten_example =
    receive-flatten (buffered (0 ∷ [])) ((2 ∷ 65 ∷ []) ∷ (66 ∷ 0 ∷ []) ∷ [])
      (unfold next_packet in refl)

get_packets-on_wire_example :
    get_packets (buffered (on_wire two_packets ++ 0 ∷ 9 ∷ 65 ∷ []))
    ≡ (two_packets, buffered (0 ∷ 9 ∷ 65 ∷ []))
get_packets-on_wire_example =
    get_packets-on_wire two_packets (0 ∷ 9 ∷ 65 ∷ []) (omega arith) (unfold next_packet in refl)

recv_packet-send_packet_bz2_example :
    let c = Gen4.new_codec 42 in
    let (wire, s') = Gen4.send_packet store hello c in
    (p : Bytes) × (wire ≡ prefixed p)
    × ((Gen4.recv_packet store p c).0 ≡ some hello)
    × ((Gen4.recv_packet store p c).1.in_codec ≡ s'.out_codec)
recv_packet-send_packet_bz2_example =
    Gen4.recv_packet-send_packet_bz2 store store-IsLossless hello (Gen4.new_codec 42)
      (Gen4.new_codec 42) (unfold Gen4.new_codec in refl) (omega arith)

recv_packet-send_packet_zlib_example :
    (p : Bytes) × (Gen2.send_packet store hello ≡ prefixed p)
    × (Gen2.recv_packet store p ≡ some hello)
recv_packet-send_packet_zlib_example =
    Gen2.recv_packet-send_packet_zlib store store-IsLossless hello (omega arith)

send_packet-remove_filler_example :
    let (wire, c') = Gen3.send_packet store (hello ++ 0x0A ∷ []) (Gen3.new_codec 42) in
    (p line : Bytes) × (wire ≡ prefixed p)
    × (store.zlib_decompress p ≡ some (line ++ 0x0A ∷ []))
    × HasNoNewline line
    × (remove_filler c'.out_iterator line ≡ hello)
unfolding Gen3.new_codec
send_packet-remove_filler_example =
    send_packet-remove_filler store store-IsLossless hello (Gen3.new_codec 42) (omega arith)
      (unfold prepare in omega arith)
