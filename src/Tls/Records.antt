-- ===== src/Tls/Records.antt =====
-- internal/common/tls.go: what is written record by record is read record by record.
use cloak.Prelude.{
  ℕ, ◌+◌, ◌/◌, ◌*◌, ◌%◌, ◌^◌, ◌≤◌, ◌<◌, Bytes, length, uint16, put_uint16, List, [], ◌∷◌, ◌++◌, ◌≡◌,
  refl, ap, ◌∙◌, arith, take-append, drop-append, length-append, append_assoc,
}
use cloak.Tls.{
  application_data, version_tls13, add_record_layer, RecordResult, record_ok, read_record, writes,
  write_record,
}

-- A record of any type is read, and what follows it is left.
pub read_record-add_record_layer :
    (m rest : Bytes) (typ ver size : ℕ)
    → length m < 2 ^ 16
    → length m ≤ size
    → 5 ≤ size
    → read_record (add_record_layer m typ ver ++ rest) size ≡ (record_ok m, rest)
unfolding read_record add_record_layer put_uint16 uint16
read_record-add_record_layer m rest typ ver size small fits room =
    let n : (length m / 256 % 256) * 256 + length m % 256 ≡ length m = omega arith in
    ground (
      arith,
      n,
      length-append m rest,
      take-append (length m) m rest refl,
      drop-append (length m) m rest refl,
    )

-- The stream that writing some messages makes, and the messages that as many reads return.
abbrev pub sent_stream : List Bytes → Bytes
sent_stream [] = []
sent_stream (m ∷ ms) = add_record_layer m application_data version_tls13 ++ sent_stream ms

abbrev pub read_records : List Bytes → ℕ → Bytes → List RecordResult × Bytes
read_records [] size stream = ([], stream)
read_records (m ∷ ms) size stream =
    let (r, rest) = read_record stream size in
    let (rs, after) = read_records ms size rest in (r ∷ rs, after)

abbrev pub all_ok : List Bytes → List RecordResult
all_ok [] = []
all_ok (m ∷ ms) = record_ok m ∷ all_ok ms

-- No message is too long for a record, or for the slice.
abbrev pub AllFit : ℕ → List Bytes → Type 0
AllFit size [] = Unit {0}
AllFit size (m ∷ ms) = (length m ≤ 2 ^ 14 + 256) × (length m ≤ size) × AllFit size ms

-- Each of the messages is written as one record.
abbrev pub AllWritten : List Bytes → Type 0
AllWritten [] = Unit {0}
AllWritten (m ∷ ms) =
    (write_record m ≡ writes (add_record_layer m application_data version_tls13)) × AllWritten ms

write_record-writes :
    (m : Bytes)
    → length m ≤ 2 ^ 14 + 256
    → write_record m ≡ writes (add_record_layer m application_data version_tls13)
unfolding write_record
write_record-writes m h = ground arith

-- Messages of at most 2^14 + 256 bytes are all written, each as one record; and however the
-- connection cuts the stream of them, as many reads return the messages one by one, if the slice
-- takes the longest of them and a record's header, and leave what follows them.
pub read_records-sent_stream :
    (ms : List Bytes) (rest : Bytes) (size : ℕ)
    → 5 ≤ size
    → AllFit size ms
    → AllWritten ms × (read_records ms size (sent_stream ms ++ rest) ≡ (all_ok ms, rest))
read_records-sent_stream [] rest size room fit = (tt, refl)
read_records-sent_stream (m ∷ ms) rest size room (short, fits, fit) =
    let (written, later) = read_records-sent_stream ms rest size room fit in
    let r = add_record_layer m application_data version_tls13 in
    let first : read_record ((r ++ sent_stream ms) ++ rest) size
        ≡ (record_ok m, sent_stream ms ++ rest) =
      ap (λ s. read_record s size) (append_assoc r (sent_stream ms) rest)
      ∙ read_record-add_record_layer m (sent_stream ms ++ rest) application_data version_tls13 size
          (omega arith) fits room in
    ((write_record-writes m short, written), simp (first, later) refl)
