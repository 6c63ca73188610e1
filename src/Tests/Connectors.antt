-- ===== src/Tests/Connectors.antt =====
-- internal/client/connector.go: a client that falls back to Firefox's signature.
use cloak.Prelude.{ℕ, ◌≡◌, ◌≢◌, refl, List, replicate, ltb, ◌==◌, if◌then◌else◌, arith, codes}
use cloak.Multiplex.Session.State.{Session}
use cloak.Client.Config.{
  RawConfig, Processed, processed, direct, chrome, firefox, safari, Transport, ws_over_tls,
  direct_tls, create_transport,
}
use cloak.Client.Connector.{
  Attempt, not_dialed, not_sent, not_prepared, prepared, Connected, connected, dial_panics,
  fall_back, make_conn,
}
use cloak.Client.Connector.Fallback.{Reachable, Comes, make_conn-Comes}
use cloak.Client.Connector.Started.{Started}
use cloak.Tests.Clients.{client_config}

-- The server comes up for the third attempt, and has no use for Chrome's signature.
abbrev network : ℕ → Transport → ℕ → Attempt
network i (ws_over_tls url) n = not_dialed
network i (direct_tls chrome) n = if n == 0 then not_dialed else not_prepared
network i (direct_tls firefox) n = if ltb n 2 then not_prepared else prepared i (replicate 32 n)
network i (direct_tls safari) n = not_prepared

never_not_sent : (i : ℕ) (t : Transport) (m : ℕ) → network i t m ≢ not_sent
never_not_sent i (ws_over_tls url) m e = ground (arith, e)
never_not_sent i (direct_tls chrome) m e = ground (arith, e)
never_not_sent i (direct_tls firefox) m e = ground (arith, e)
never_not_sent i (direct_tls safari) m e = ground (arith, e)

-- A handshake that cannot send its ClientHello ends the program.
unsent_hello : make_conn (λ t n. not_sent) 9 (direct firefox) 0 ≡ dial_panics
unfolding make_conn create_transport
unsent_hello = refl

reachable : (i : ℕ) → Reachable (network i) (direct chrome) 2
unfolding create_transport fall_back
reachable i = record {
  sends = never_not_sent i;
  answers = λ m h e. ground (arith, h, e);
  takes = λ m h. ground (arith, h);
}

make_conn-Comes_example :
    (c : Connected) × (make_conn (network 7) 4 (direct chrome) 0 ≡ connected c)
    × Comes (network 7) 2 c
make_conn-Comes_example = make_conn-Comes (network 7) 2 (direct chrome) (reachable 7)

falls_back :
    make_conn (network 7) 4 (direct chrome) 0
    ≡ connected (record {
      conn = 7;
      session_key = replicate 32 2;
      transport = direct_tls firefox;
      attempt = 2;
    })
unfolding make_conn create_transport fall_back
falls_back = refl

abbrev chrome_config : RawConfig
chrome_config = record client_config { browser_sig = codes "Chrome" }

abbrev chrome_client : Processed
chrome_client = processed chrome_config (replicate 32 5) 1
