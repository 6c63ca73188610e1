-- ===== src/WebSocket.antt =====
-- internal/common/websocket.go: messages as a stream of bytes. The connection is gorilla/websocket's:
-- `chunk k` is the most that the reader of a message gives in its call number `k`.
pub mod Whole
use cloak.Prelude.{
  ℕ, zero, suc, ◌+◌, ◌-◌, min, Bytes, Bool, true, false, length, take, drop, [], ◌∷◌, ◌++◌, ◌==◌,
  if◌then◌else◌,
}

-- What `NextReader` finds: a binary message, which may break off; another message; or an error.
pub data Incoming : Type 0 where
  binary broken_off : Bytes → Incoming
  not_binary no_reader : Incoming

pub data ReadResult : Type 0 where
  read_ok read_failed too_large : Bytes → ReadResult
  no_message : ReadResult

-- The loop of `Read` over the `rest` of a message, with `acc` in the buffer and `free` bytes of it
-- left. A call gives a byte at least unless the buffer is full, so that the length of the message and
-- one bound the rounds.
unfoldable pub read_message : (ℕ → ℕ) → Bool → ℕ → ℕ → Bytes → ℕ → Bytes → ReadResult
read_message chunk ends zero k rest free acc = read_failed acc
read_message chunk ends (suc fuel) k [] free acc = if ends then read_ok acc else read_failed acc
read_message chunk ends (suc fuel) k (x ∷ rest) free acc =
    let got = take (min (chunk k) free) (x ∷ rest) in
    elim (length got == 0) [
      | true ↦ too_large acc
      | false ↦
          read_message chunk ends fuel (k + 1) (drop (length got) (x ∷ rest)) (free - length got)
            (acc ++ got)
    ]

-- `Read` into a slice of `size` bytes.
unfoldable pub read : (ℕ → ℕ) → Incoming → ℕ → ReadResult
unfolding read_message
read chunk (binary m) size = read_message chunk true (length m + 1) 0 m size []
read chunk (broken_off m) size = read_message chunk false (length m + 1) 0 m size []
read chunk not_binary size = read_ok []
read chunk no_reader size = no_message
