-- ===== src/Server/FirstPacket/Transparent.antt =====
-- internal/server/dispatcher.go: what reading the first packet keeps of the stream.
use mathlib.Core.Path.{subst}
use cloak.Prelude.{
  Bool-cases, inl, inr, ==_iff, ℕ, zero, suc, ◌-◌, ◌≤◌, ◌<◌, ◌≡◌, ◌≢◌, refl, sym, Bytes, take, drop,
  length, true, not, [], ◌∷◌, ◌++◌, none, some, ◌==◌, arith, uint16, take-append-drop,
  length-append, length-take, length-drop, append_assoc, append-nil,
}
use cloak.Server.FirstPacket.{
  read_error, unrecognised_protocol, out_of_fuel, Reading, before, of_lines, stopped,
  conn_read_line, read_lines, FirstPacket, read_tls_packet, read_first_packet,
}

conn_read_line-rest :
    (room : ℕ) (stream : Bytes)
    → (conn_read_line room stream).got ++ (conn_read_line room stream).rest ≡ stream
unfolding conn_read_line
conn_read_line-rest zero stream = refl
conn_read_line-rest (suc room) [] = refl
conn_read_line-rest (suc room) (c ∷ stream) = ground (arith, conn_read_line-rest room stream)

-- A line that was read has a byte at least, and no line is longer than the buffer.
conn_read_line-length :
    (room : ℕ) (stream : Bytes)
    → (length (conn_read_line room stream).got ≤ room)
      × ((conn_read_line room stream).error ≡ none → 0 < length (conn_read_line room stream).got)
unfolding conn_read_line
conn_read_line-length zero stream = (omega arith, λ h. cc)
conn_read_line-length (suc room) [] = (omega arith, λ h. cc)
conn_read_line-length (suc room) (c ∷ stream) =
    (ground (arith, conn_read_line-length room stream), λ h. ground arith)

conn_read_line-fuel :
    (room : ℕ) (stream : Bytes) → (conn_read_line room stream).error ≢ some out_of_fuel
unfolding conn_read_line
conn_read_line-fuel zero stream = cc
conn_read_line-fuel (suc room) [] = cc
conn_read_line-fuel (suc room) (c ∷ stream) = ground (arith, conn_read_line-fuel room stream)

read_lines-rest :
    (fuel room : ℕ) (stream : Bytes)
    → (read_lines fuel room stream).got ++ (read_lines fuel room stream).rest ≡ stream
unfolding read_lines
read_lines-rest zero room stream = refl
read_lines-rest (suc fuel) room stream =
    let line = conn_read_line room stream in
    let more = read_lines fuel (room - length line.got) line.rest in
    ground (
      arith,
      conn_read_line-rest room stream,
      read_lines-rest fuel (room - length line.got) line.rest,
      append_assoc line.got more.got more.rest,
    )

read_lines-length :
    (fuel room : ℕ) (stream : Bytes) → length (read_lines fuel room stream).got ≤ room
unfolding read_lines
read_lines-length zero room stream = omega arith
read_lines-length (suc fuel) room stream =
    let line = conn_read_line room stream in
    let more = read_lines fuel (room - length line.got) line.rest in
    ground (
      arith,
      (conn_read_line-length room stream).0,
      read_lines-length fuel (room - length line.got) line.rest,
      length-append line.got more.got,
    )

read_lines-fuel :
    (fuel room : ℕ) (stream : Bytes)
    → room < fuel
    → (read_lines fuel room stream).error ≢ some out_of_fuel
unfolding read_lines
read_lines-fuel zero room stream h = absurd (omega arith)
read_lines-fuel (suc fuel) room stream h =
    let line = conn_read_line room stream in
    ground (
      arith,
      conn_read_line-length room stream,
      conn_read_line-fuel room stream,
      read_lines-fuel fuel (room - length line.got) line.rest,
    )

-- What holds of every first packet.
pub record Faithful (size : ℕ) (stream : Bytes) (p : FirstPacket) : Type 0 where
  pub conserved : p.packet ++ p.rest ≡ stream
  pub fits : length p.packet ≤ size
  pub closed_alone : p.closed ≡ not p.redir_on_err
  pub closed_at_end : p.closed ≡ true → p.rest ≡ []
  pub ends : p.error ≢ some out_of_fuel
  pub recognised : p.error ≡ none → p.transport ≢ none

read_tls_packet-Faithful :
    (size : ℕ) (stream : Bytes)
    → 5 ≤ size
    → Faithful size (22 ∷ stream) (read_tls_packet size stream)
unfolding read_tls_packet
read_tls_packet-Faithful size stream h =
    let body = drop 4 stream in
    let n = uint16 (drop 3 (22 ∷ take 4 stream)) in
    record {
      conserved = ground (
        arith,
        append-nil (22 ∷ stream),
        take-append-drop 4 stream,
        append-nil ((22 ∷ take 4 stream) ++ body),
        take-append-drop n body,
        append_assoc (22 ∷ take 4 stream) (take n body) (drop n body),
      );
      fits = ground (
        arith,
        length-take 4 stream,
        length-drop 4 stream,
        length-append (22 ∷ take 4 stream) body,
        length-append (22 ∷ take 4 stream) (take n body),
        length-take n body,
      );
      closed_alone = ground arith;
      closed_at_end = λ e. ground arith;
      ends = ground arith;
      recognised = λ e. ground arith;
    }

-- A line that cannot be read to its end has used up the stream.
conn_read_line-ended :
    (room : ℕ) (stream : Bytes)
    → (conn_read_line room stream).error ≡ some read_error
    → (conn_read_line room stream).rest ≡ []
unfolding conn_read_line
conn_read_line-ended zero stream h = cc
conn_read_line-ended (suc room) [] h = refl
conn_read_line-ended (suc room) (c ∷ stream) h = ground (arith, conn_read_line-ended room stream)

read_lines-ended :
    (fuel room : ℕ) (stream : Bytes)
    → (read_lines fuel room stream).error ≡ some read_error
    → (read_lines fuel room stream).rest ≡ []
unfolding read_lines
read_lines-ended zero room stream h = cc
read_lines-ended (suc fuel) room stream h =
    let line = conn_read_line room stream in
    ground (
      arith,
      conn_read_line-ended room stream,
      read_lines-ended fuel (room - length line.got) line.rest,
    )

of_lines-Faithful :
    (size : ℕ) (stream : Bytes) (r : Reading)
    → 1 ≤ size
    → r.got ++ r.rest ≡ stream
    → length r.got ≤ size - 1
    → r.error ≢ some out_of_fuel
    → (r.error ≡ some read_error → r.rest ≡ [])
    → Faithful size (71 ∷ stream) (of_lines (before (71 ∷ []) r))
of_lines-Faithful size stream r h whole small ends ended = record {
  conserved = ground arith;
  fits = ground arith;
  closed_alone = ground arith;
  closed_at_end = λ e. ground (arith, ended);
  ends = ground arith;
  recognised = λ e. ground arith;
}

stopped-Faithful :
    (size b : ℕ) (stream : Bytes)
    → 1 ≤ size
    → Faithful size (b ∷ stream) (stopped (b ∷ []) none (some unrecognised_protocol) stream)
stopped-Faithful size b stream h = record {
  conserved = refl;
  fits = omega arith;
  closed_alone = refl;
  closed_at_end = λ e. cc;
  ends = cc;
  recognised = λ e. cc;
}

-- Reading the first packet ends, whatever comes. It never takes more than the buffer, and what it
-- took, followed by what is left on the connection, is what the client has sent. It closes the
-- connection exactly if there is to be no redirection, and then nothing is left of the stream; a
-- packet without error is one of a known transport. The buffer has five bytes at least.
pub read_first_packet-Faithful :
    (size : ℕ) (stream : Bytes) → 5 ≤ size → Faithful size stream (read_first_packet size stream)
unfolding read_first_packet
read_first_packet-Faithful size [] h = record {
  conserved = refl;
  fits = omega arith;
  closed_alone = refl;
  closed_at_end = λ e. refl;
  ends = cc;
  recognised = λ e. cc;
}
read_first_packet-Faithful size (b ∷ stream) h = elim (Bool-cases (b == 22)) [
  | inl is_tls ↦ rw is_tls (
      subst (λ c. Faithful size (c ∷ stream) (read_tls_packet size stream))
        (sym ((==_iff b 22).0 is_tls)) (read_tls_packet-Faithful size stream h))
  | inr other ↦ rw other (elim (Bool-cases (b == 71)) [
    | inl is_get ↦ rw is_get (
        subst
          (λ c.
            Faithful size (c ∷ stream)
              (of_lines (before (71 ∷ []) (read_lines size (size - 1) stream))))
          (sym ((==_iff b 71).0 is_get))
          (of_lines-Faithful size stream (read_lines size (size - 1) stream) (omega arith)
            (read_lines-rest size (size - 1) stream) (read_lines-length size (size - 1) stream)
            (read_lines-fuel size (size - 1) stream (omega arith))
            (read_lines-ended size (size - 1) stream)))
    | inr unknown ↦ rw unknown (stopped-Faithful size b stream (omega arith))
  ])
]
