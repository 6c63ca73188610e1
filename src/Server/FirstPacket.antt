-- ===== src/Server/FirstPacket.antt =====
-- internal/server/dispatcher.go: readFirstPacket and connReadLine. The stream is what the connection
-- yields before it ends or the deadline passes.
pub mod Transparent
use cloak.Prelude.{
  ℕ, zero, suc, ◌+◌, ◌-◌, Bytes, take, drop, length, uint16, Bool, true, false, List, [], ◌∷◌, ◌++◌,
  Option, none, some, ltb, ◌==◌, if◌then◌else◌,
}
use cloak.Server.Auth.{same_bytes}

abbrev pub first_packet_size : ℕ
first_packet_size = 3000

pub data Transport : Type 0 where
  tls websocket : Transport

-- `out_of_fuel` has no counterpart in the code.
pub data PacketError : Type 0 where
  read_error short_buffer unrecognised_protocol out_of_fuel : PacketError

-- The bytes read, the error, and the stream after them.
pub record Reading : Type 0 where
  pub got : Bytes
  pub error : Option PacketError
  pub rest : Bytes

abbrev pub before : Bytes → Reading → Reading
before b r = record r { got = b ++ r.got }

-- `room` is the length of the buffer.
unfoldable pub conn_read_line : (room : ℕ) → Bytes → Reading
conn_read_line zero stream = record { got = []; error = some short_buffer; rest = stream }
conn_read_line (suc room) [] = record { got = []; error = some read_error; rest = [] }
conn_read_line (suc room) (c ∷ stream) =
    let more = before (c ∷ []) (conn_read_line room stream) in
    if c == 10 then record { got = c ∷ []; error = none; rest = stream } else more

abbrev is_blank : Bytes → Bool
is_blank line = same_bytes line (13 ∷ 10 ∷ [])

-- The loop over the lines of a request; a line has a byte at least, and `fuel` bounds the lines.
unfoldable pub read_lines : (fuel room : ℕ) → Bytes → Reading
unfolding conn_read_line
read_lines zero room stream = record { got = []; error = some out_of_fuel; rest = stream }
read_lines (suc fuel) room stream =
    let line = conn_read_line room stream in
    let more = before line.got (read_lines fuel (room - length line.got) line.rest) in
    elim line.error [ some e ↦ line | none ↦ if is_blank line.got then line else more ]

-- What `readFirstPacket` returns, `packet` for its buffer up to the number of bytes read; `rest` is
-- the stream after it, and `closed` says that it has closed the connection.
pub record FirstPacket : Type 0 where
  pub packet : Bytes
  pub transport : Option Transport
  pub redir_on_err : Bool
  pub error : Option PacketError
  pub rest : Bytes
  pub closed : Bool

abbrev pub read_failed : Bytes → Option Transport → FirstPacket
read_failed got t = record {
  packet = got;
  transport = t;
  redir_on_err = false;
  error = some read_error;
  rest = [];
  closed = true;
}

abbrev pub stopped : Bytes → Option Transport → Option PacketError → Bytes → FirstPacket
stopped got t e rest = record {
  packet = got;
  transport = t;
  redir_on_err = true;
  error = e;
  rest = rest;
  closed = false;
}

-- The branch for 0x16, where `stream` follows the first byte.
unfoldable pub read_tls_packet : ℕ → Bytes → FirstPacket
unfolding uint16
read_tls_packet size stream =
    let header = 22 ∷ take 4 stream in
    let data_length = uint16 (drop 3 header) in
    let body = drop 4 stream in
    if ltb (length stream) 4
    then read_failed (22 ∷ stream) (some tls)
    else if ltb size (data_length + 5)
    then stopped header (some tls) (some short_buffer) body
    else if ltb (length body) data_length
    then read_failed (header ++ body) (some tls)
    else stopped (header ++ take data_length body) (some tls) none (drop data_length body)

-- What becomes of the lines of a request.
abbrev pub of_lines : Reading → FirstPacket
of_lines r = elim r.error [
  | none ↦ stopped r.got (some websocket) none r.rest
  | some read_error ↦ record (read_failed r.got (some websocket)) { rest = r.rest }
  | some e ↦ stopped r.got (some websocket) (some e) r.rest
]

unfoldable pub read_first_packet : ℕ → Bytes → FirstPacket
unfolding read_tls_packet read_lines
read_first_packet size [] = read_failed [] none
read_first_packet size (b ∷ stream) =
    if b == 22
    then read_tls_packet size stream
    else if b == 71
    then of_lines (before (71 ∷ []) (read_lines size (size - 1) stream))
    else stopped (b ∷ []) none (some unrecognised_protocol) stream
