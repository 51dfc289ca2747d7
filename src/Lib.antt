-- ===== src/Lib.antt =====
-- reborn_protocol, a Python library for the wire protocol of a game server: packets and their
-- encryption, the properties that packets carry, coordinates, and the containers of scripts.
--
-- The parts and how they interact. A codec of reborn_protocol/codec.py compresses a bundle by a
-- policy of reborn_protocol/encryption.py, encrypts it with the cipher of that file and frames
-- it; at the other end `PacketBuffer` cuts the stream into packets, and the peer's codec decrypts
-- and decompresses them. Inside a bundle, `PacketBuilder` writes fields and `PacketReader` reads
-- them. reborn_protocol/props.py describes properties by tables, and decodes, measures, encodes
-- and walks them. The other files stand for themselves.
--
-- Which file models what. An object is a record of its attributes, and a method a function that
-- returns the new record beside its result; `None` is `none`, an exception is a value.
--   Base: bytes, tests, lists, and signed integers over the native numbers.
--   Encryption/Cipher: `RebornEncryption`. Encryption/Compression: `CompressionPolicy`,
--     `compress_data`, `decompress_data`.
--   Codec/Frame and Codec/Buffer: `_frame` and `PacketBuffer`. Codec/Gen1 to Codec/Gen5 and
--     Codec/Server: the codecs. Codec/Session: the calls of a whole session.
--   Codec/Reader and Codec/Builder: `PacketReader` and `PacketBuilder`.
--   Props/Tables, Props/Lanes, Props/Decode, Props/Encode, Props/Stream, Props/Names:
--     reborn_protocol/props.py. Props/Encode has children on what is read back: Back on fields,
--     Forms and Pairs on wire forms, RoundTrip on values.
--   Coords: reborn_protocol/coords.py. Gs1/Csv: reborn_protocol/gs1/csv.py.
--   Gs1/Tokens: the types of tokens of reborn_protocol/gs1/lexer.py, and the groups of them in
--     reborn_protocol/gs1/parser.py. Gs1/Lexer: `Lexer` of reborn_protocol/gs1/lexer.py, from the
--     searches in the text (Scan), the modes (Mode) and the stack of commands (State) over what the
--     modes share (Shared, Words) to the modes (Expression, Strings, Literals) and `tokenize` (Run);
--     Tables is reborn_protocol/gs1/_tables.py. Its other children prove: Sound has an invariant with a rule
--     for each way to return, applied to each mode, Total is about a whole text, and Frames, Quotes,
--     Munch and Spaces about commands, strings, operators and spaces. Gs1/Script: `parse`.
--   Gs1/Ast: reborn_protocol/gs1/ast.py. Gs1/Values: reborn_protocol/gs1/values.py, with Printing on
--     `to_str`. Gs1/Runtime: `VarStore` of reborn_protocol/gs1/runtime.py, with Tables on variables,
--     Arrays and Places on lists, and Host, which is `MemoryHost`, with Growth on its lists.
--   Gs1/Parser: `Parser` of reborn_protocol/gs1/parser.py, from the helpers on tokens (State) over
--     operands (Primary), the levels of precedence (Expression) and statements (Statement) to the
--     script (Program). Its other children prove: Fit says which tokens and states are meant; Ends,
--     Choices and Loops hold the rules for what a method leaves; Operands, Takes, Calls, Primaries,
--     Levels, Statements, Recovery, Blocks, Cases and Compound apply them; Total is about a whole
--     script, Stall about array literals.
--   Gs2/Container: reborn_protocol/gs2/container.py. Gs2/Opcodes: the opcodes of
--     reborn_protocol/gs2/opcodes.py. Gs2/Disasm: `decode` of reborn_protocol/gs2/disasm.py.
--   Examples: each theorem at a concrete input.
--
-- Numbers. Python's integers are the natural numbers where they cannot be negative, and `ℤ` of
-- Base/Int elsewhere; `& 0xFFFFFFFF` is the remainder by 2 ^ 32. A position in tiles is a whole
-- number of 1/256 tiles, which holds the multiples of 1/16 and 1/2 on the wire exactly; the
-- rounding of other floating point numbers is outside of the model, also of negative coordinates so
-- near to 0 that their local coordinate is 64.
--
-- Parameters. zlib and bz2 are the record `Compressors` of Encryption/Compression, and what is
-- relied on is the record `IsLossless` of its child Laws: compressing and decompressing give the
-- data back, below a limit in one call. The text encoding of a reader, and of a container's
-- strings, is a function. Python's floats, their texts and its tests on characters are the record
-- `Python` of Gs1/Values.
--
-- Loops. `get_packets` and `parse_prop_stream` take at least one byte in each round,
-- `gs1_csv_split` a character, and `parse_container` and `decode` a byte in each loop, so each
-- gets the length of its input as fuel; running out of it is `none` for `parse_prop_stream` and a
-- case `stuck` for the last two. A loop or a recursion of the GS1 parser takes a token in
-- each round, so `parse_tokens` gets one more than the number of tokens as fuel; its outcome has a
-- case `stuck` too. A scan of the GS1 lexer takes a character, so `tokenize` gets one more than their
-- number as fuel.
--
-- The GS1 lexer keeps the text from its position on, and one stack of frames for its four stacks,
-- which are pushed and popped together. The tables of commands are a parameter of the theorems. A
-- `LexError` has no message, and `isalpha` and `isdigit` are tests for ASCII characters: every mode
-- treats any other letter or digit as it does a character that it does not know.
--
-- A list of GS1 is a reference into a heap of lists, so that variables can share it and a list can
-- hold itself; `to_str` has a limit on the depth of recursion, and a case for reaching it. A scope of
-- None is the empty text, and an index the integer that Python's `int` gives.
--
-- The GS1 parser keeps the tokens from its index on, and a saved index is the list of tokens that
-- stood there. A method is a function from the state of the parser to an outcome: a value and the
-- new state, or the `ParseError` that it raises. The EOF that ends the tokens is the end of the list,
-- a token has no offset, and a number is the text of its literal. That Python limits the depth of
-- recursion is left out.
--
-- `float` of an integer raises OverflowError from 2 ^ 1024 - 2 ^ 970 on (Base/Hex). So a hexadecimal
-- literal can end the GS1 parser, with the outcome `overflow` that no `except` catches, and `decode`.
-- Python's `str` of values other than texts and None is a parameter of `encode_value`. `skip` is
-- modelled down to the place 0.
--
-- Not modelled: the camera functions of reborn_protocol/coords.py, for their floating point
-- numbers; the names of properties and logging; the packet ids of reborn_protocol/constants.py;
-- the float that `strtofloat` reads from a literal of GS2 code, and the rendering of
-- listings; the interpreter of reborn_protocol/gs1, with `Context` and the callbacks of a host;
-- the values and the virtual machine of reborn_protocol/gs2; tests.
pub mod Base
pub mod Encryption
pub mod Codec
pub mod Props
pub mod Coords
pub mod Gs1
pub mod Gs2
pub mod Examples
