-- ===== src/Multiplex/Session/State.antt =====
-- internal/multiplex/session.go and stream.go: the state of a session and its maps.
use Prim.Native.String.{String}
use cloak.Prelude.{
  ℕ, ◌+◌, ◌-◌, ◌%◌, ◌^◌, Bytes, Bool, false, List, [], ◌∷◌, Option, none, some, ◌==◌, if◌then◌else◌,
  ◌≡◌, refl, arith,
}
use cloak.Multiplex.Obfs.{Entropy, Obfuscator, Salsa20, frame_header_length, max_extra_len}
use cloak.Multiplex.StreamPipe
use cloak.Multiplex.StreamPipe.{StreamPipe}
use cloak.Multiplex.DatagramPipe
use cloak.Multiplex.DatagramPipe.{DatagramPipe, new_datagram_pipe}
use cloak.Multiplex.StreamBuffer.{StreamBuffer, new_stream_buffer}

pub data SessionError : Type 0 where
  broken_session repeat_session_closing repeat_stream_closing no_multiplex : SessionError
  broken_stream short_buffer recv_waits seq_too_small closed_pipe backlog_full : SessionError
  not_obfuscated not_deobfuscated broken_switchboard write_failed : SessionError

-- An `error` result: `none` is nil.
abbrev pub Err : Type 0
Err = Option SessionError

pub data TerminalMsg : Type 0 where
  closing_notification timed_out failed_to_send conn_dropped switchboard_broken : TerminalMsg
  given : String → TerminalMsg

-- The two implementations of the interface `recvBuffer`.
pub data RecvBuffer : Type 0 where
  ordered : StreamBuffer → RecvBuffer
  unordered : DatagramPipe → RecvBuffer

pub record Stream : Type 0 where
  pub id : ℕ
  pub recv_buf : RecvBuffer
  pub seq : ℕ
  pub closed : Bool

pub record Switchboard : Type 0 where
  pub conns : List (ℕ × ℕ)
  pub conns_count : ℕ
  pub broken : Bool
  pub sent : List (ℕ × Bytes)
  pub closed_conns : List ℕ

-- Streams are objects: `objects` is the store, and the map and the accept channel hold references
-- into it. A key whose value is `none` is the nil entry of a stream that has been closed.
pub record Session : Type 0 where
  pub singleplex : Bool
  pub is_unordered : Bool
  pub obfuscator : Obfuscator
  pub max_stream_unit_write : ℕ
  pub stream_send_buffer_size : ℕ
  pub next_stream_id : ℕ
  pub active_stream_count : ℕ
  pub objects : ℕ → Stream
  pub next_ref : ℕ
  pub streams : List (ℕ × Option ℕ)
  pub accept_ch : List ℕ
  pub closed : Bool
  pub terminal_msg : Option TerminalMsg
  pub sb : Switchboard
  pub timers : ℕ

-- `conn_write c b` is the outcome of `Write(b)` on the connection `c`: the number of bytes written,
-- or `none` for an error; `pick n` is that of `Uint32N(n)`. `pad_byte` and `padding` are what
-- `CryptoRandRead` puts into the payload of a closing frame.
pub record Env : Type 0 where
  pub salsa : Salsa20
  pub rnd : Entropy
  pub pick : ℕ → ℕ
  pub pad_byte : ℕ
  pub padding : ℕ → Bytes
  pub conn_write : ℕ → Bytes → Option ℕ

-- A Go map whose keys are numbers, as the list of its entries.
module _ {ℓ} {V : Type ℓ} where
  unfoldable pub lookup : ℕ → List (ℕ × V) → Option V
  lookup id [] = none
  lookup id (entry ∷ others) = if entry.0 == id then some entry.1 else lookup id others

  -- An assignment, which replaces an entry or adds one.
  unfoldable pub insert : ℕ → V → List (ℕ × V) → List (ℕ × V)
  insert id new [] = (id, new) ∷ []
  insert id new (entry ∷ others) =
      let kept = insert id new others in if entry.0 == id then (id, new) ∷ others else entry ∷ kept

  pub lookup-insert :
      (id other : ℕ) (new : V) (entries : List (ℕ × V))
      → lookup other (insert id new entries)
        ≡ (if id == other then some new else lookup other entries)
  unfolding lookup insert
  lookup-insert id other new [] = refl
  lookup-insert id other new (entry ∷ others) = ground (arith, lookup-insert id other new others)

-- The store after an assignment through the reference `r`.
abbrev pub update {ℓ} : {A : Type ℓ} → (ℕ → A) → ℕ → A → ℕ → A
update h r v k = if r == k then v else h k

abbrev pub with_stream : Session → ℕ → Stream → Session
with_stream sesh r s = record sesh { objects = update sesh.objects r s }

-- `makeStream`: a new object, whose reference is the old `next_ref`.
unfoldable pub make_stream : Session → ℕ → Session
make_stream sesh id = record sesh {
  objects = update sesh.objects sesh.next_ref (record {
    id = id;
    recv_buf = if sesh.is_unordered then unordered new_datagram_pipe else ordered new_stream_buffer;
    seq = 0;
    closed = false;
  });
  next_ref = sesh.next_ref + 1;
}

-- `streamCountIncr` and `streamCountDecr`: atomic adds on a uint32, the second of 2^32 - 1.
unfoldable pub stream_count_incr : Session → Session
stream_count_incr sesh = record sesh {
  active_stream_count = (sesh.active_stream_count + 1) % 2 ^ 32;
}

unfoldable pub stream_count_decr : Session → Session
stream_count_decr sesh = record sesh {
  active_stream_count = (sesh.active_stream_count + (2 ^ 32 - 1)) % 2 ^ 32;
}

-- `sync.Once`: only the first message is kept.
abbrev first_msg : Option TerminalMsg → TerminalMsg → Option TerminalMsg
first_msg none msg = some msg
first_msg (some old) msg = some old

unfoldable pub set_terminal_msg : Session → TerminalMsg → Session
set_terminal_msg sesh msg = record sesh { terminal_msg = first_msg sesh.terminal_msg msg }

-- `recvBuf.Close()`.
unfoldable pub close_recv_buf : RecvBuffer → RecvBuffer
close_recv_buf (ordered b) = ordered (record b { buf = StreamPipe.close b.buf })
close_recv_buf (unordered d) = unordered (DatagramPipe.close d)

abbrev pub default_max_on_wire_size : ℕ
default_max_on_wire_size = 2 ^ 14 + 256

abbrev pub accept_backlog : ℕ
accept_backlog = 1024

-- `MakeSession`, where a limit of 0 stands for one that is not positive. The first timer is set.
unfoldable pub make_session : Obfuscator → Bool → Bool → ℕ → (ℕ → Stream) → Session
make_session o single unord limit objects =
    let size = if limit == 0 then default_max_on_wire_size else limit in
    record {
      singleplex = single;
      is_unordered = unord;
      obfuscator = o;
      max_stream_unit_write = size - frame_header_length - max_extra_len;
      stream_send_buffer_size = size;
      next_stream_id = 1;
      active_stream_count = 0;
      objects = objects;
      next_ref = 0;
      streams = [];
      accept_ch = [];
      closed = false;
      terminal_msg = none;
      sb = record { conns = []; conns_count = 0; broken = false; sent = []; closed_conns = [] };
      timers = 1;
    }
