-- ===== src/Multiplex/Frame.antt =====
-- internal/multiplex/frame.go.
use cloak.Prelude.{ℕ, ◌^◌, ◌<◌, Bytes}

abbrev pub closing_nothing : ℕ
closing_nothing = 0

abbrev pub closing_stream : ℕ
closing_stream = 1

abbrev pub closing_session : ℕ
closing_session = 2

pub record Frame : Type 0 where
  pub stream_id : ℕ
  pub seq : ℕ
  pub closing : ℕ
  pub payload : Bytes

-- The fields lie in the ranges of their Go types: uint32, uint64 and uint8.
pub record InRange (f : Frame) : Type 0 where
  pub stream_id_lt : f.stream_id < 2 ^ 32
  pub seq_lt : f.seq < 2 ^ 64
  pub closing_lt : f.closing < 2 ^ 8
