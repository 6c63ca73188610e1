-- ===== src/Tests/Handshakes.antt =====
-- internal/common/tls.go, internal/server/TLS.go and internal/client/TLS.go at work.
use cloak.Prelude.{◌≡◌, refl, Bytes, replicate, List, [], ◌∷◌, ◌++◌, some, arith}
use cloak.Tls.Records.{AllWritten, sent_stream, read_records, all_ok, read_records-sent_stream}
use cloak.Client.Tls.{finish_handshake}
use cloak.Server.Tls.{respond}
use cloak.Server.Tls.Reply.{finish_handshake-respond}
use cloak.WebSocket.{binary}
use cloak.Client.WebSocket.{read_reply}
use cloak.Server.WebSocket.{ws_reply}
use cloak.Server.WebSocket.Reply.{read_reply-ws_reply}
use cloak.Tests.Logins.{tagging_gcm}

abbrev messages : List Bytes
messages = (1 ∷ 2 ∷ 3 ∷ []) ∷ [] ∷ (4 ∷ []) ∷ []

read_records-sent_stream_example :
    AllWritten messages
    × (read_records messages 8 (sent_stream messages ++ 9 ∷ []) ≡ (all_ok messages, 9 ∷ []))
read_records-sent_stream_example =
    read_records-sent_stream messages (9 ∷ []) 8 (omega arith)
      ((omega arith, omega arith, (omega arith, omega arith, (omega arith, omega arith, tt))))

finish_handshake-respond_example :
    (reply : Bytes) × (respond tagging_gcm
        (replicate 32 1)
        (replicate 32 2)
        (replicate 32 3)
        (replicate 12 4)
        (replicate 4 5)
        (replicate 42 6)
      ≡ some reply)
    × (finish_handshake tagging_gcm (replicate 32 2) (reply ++ 7 ∷ [])
        ≡ some (replicate 32 3, 7 ∷ []))
finish_handshake-respond_example =
    finish_handshake-respond tagging_gcm (replicate 32 1) (replicate 32 2) (replicate 32 3)
      (replicate 12 4) (replicate 4 5) (replicate 42 6) (7 ∷ []) refl refl refl refl refl
      (omega arith)

read_reply-ws_reply_example :
    (reply : Bytes) × (ws_reply tagging_gcm (replicate 32 2) (replicate 32 3) (replicate 12 4)
      ≡ some reply)
    × (read_reply tagging_gcm (λ k. 7) (replicate 32 2) (binary reply) ≡ some (replicate 32 3))
read_reply-ws_reply_example =
    read_reply-ws_reply tagging_gcm (λ k. 7) (replicate 32 2) (replicate 32 3) (replicate 12 4)
      (λ k. omega arith) refl refl refl
