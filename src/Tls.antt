-- ===== src/Tls.antt =====
-- internal/common/tls.go: messages as TLS records on a stream of bytes. The stream is what the
-- connection yields before it ends.
pub mod Records
use cloak.Prelude.{
  ℕ, ◌+◌, ◌/◌, ◌%◌, ◌^◌, Bytes, take, drop, length, uint16, put_uint16, List, [], ◌∷◌, ◌++◌, ltb,
  if◌then◌else◌, ◌≡◌, refl, Bool, true, false,
}

abbrev pub record_layer_length : ℕ
record_layer_length = 5

abbrev pub application_data : ℕ
application_data = 23

abbrev pub version_tls13 : ℕ
version_tls13 = 771

unfoldable pub add_record_layer : Bytes → ℕ → ℕ → Bytes
unfolding put_uint16
add_record_layer input typ ver = typ ∷ (put_uint16 ver ++ (put_uint16 (length input) ++ input))

-- What a read returns: a message, `io.ErrShortBuffer`, or an error since the connection has ended.
pub data RecordResult : Type 0 where
  record_ok : Bytes → RecordResult
  short_slice ended : RecordResult

-- `Read` into a slice of `size` bytes: the message, and the stream after it.
unfoldable pub read_record : Bytes → ℕ → RecordResult × Bytes
unfolding uint16
read_record stream size =
    let data_length = uint16 (drop 3 stream) in
    let rest = drop record_layer_length stream in
    if ltb size record_layer_length
    then (short_slice, stream)
    else if ltb (length stream) record_layer_length
    then (ended, [])
    else if ltb size data_length
    then (short_slice, rest)
    else if ltb (length rest) data_length
    then (ended, [])
    else (record_ok (take data_length rest), drop data_length rest)

pub data WriteResult : Type 0 where
  writes : Bytes → WriteResult
  too_long : WriteResult

-- The bytes that `Write` hands to the connection.
unfoldable pub write_record : Bytes → WriteResult
unfolding add_record_layer
write_record input =
    if ltb (2 ^ 14 + 256) (length input)
    then too_long
    else writes (add_record_layer input application_data version_tls13)
