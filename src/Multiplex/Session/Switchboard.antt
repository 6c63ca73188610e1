-- ===== src/Multiplex/Session/Switchboard.antt =====
-- internal/multiplex/switchboard.go: the pool of connections. Rate limiting waits and counts bytes,
-- and is left out; `makeSwitchboard` sets the strategy `uniformSpread`, the one that is modelled.
use cloak.Prelude.{
  ℕ, ◌+◌, ◌%◌, ◌^◌, Bytes, true, List, [], ◌∷◌, ◌++◌, Option, none, some, ◌==◌, if◌then◌else◌,
}
use cloak.Multiplex.Session.State.{Switchboard, Env, lookup, insert}

unfoldable pub add_conn : Switchboard → ℕ → Switchboard
unfolding insert
add_conn sb conn = record sb {
  conns_count = (sb.conns_count + 1) % 2 ^ 32;
  conns = insert sb.conns_count conn sb.conns;
}

-- `none` is `errBrokenSwitchboard`.
unfoldable pub pick_rand_conn : Env → Switchboard → Option ℕ
pick_rand_conn env sb =
    if sb.broken
    then none
    else if sb.conns_count == 0
    then none
    else lookup (env.pick sb.conns_count) sb.conns

pub data SendResult : Type 0 where
  sent_ok : ℕ → SendResult
  broken conn_error : SendResult

-- `send` up to its handling of an error of the connection, which closes the session.
unfoldable pub send : Env → Switchboard → Bytes → SendResult × Switchboard
unfolding pick_rand_conn
send env sb b = if sb.broken then (broken, sb) else elim (pick_rand_conn env sb) [
  | none ↦ (broken, sb)
  | some conn ↦ elim (env.conn_write conn b) [
    | none ↦ (conn_error, sb)
    | some n ↦ (sent_ok n, record sb { sent = sb.sent ++ ((conn, b) ∷ []) })
  ]
]

-- The `Close` of a connection whose reads have ended.
abbrev pub close_conn : Switchboard → ℕ → Switchboard
close_conn sb conn = record sb { closed_conns = sb.closed_conns ++ conn ∷ [] }

abbrev values : List (ℕ × ℕ) → List ℕ
values [] = []
values ((k, c) ∷ m) = c ∷ values m

-- The `Delete` in the loop of `closeAll` is given the connection for a key, so no entry goes.
unfoldable pub close_all : Switchboard → Switchboard
close_all sb = if sb.broken then sb else record sb {
  broken = true;
  conns_count = 0;
  closed_conns = sb.closed_conns ++ values sb.conns;
}
