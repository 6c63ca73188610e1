-- ===== src/Client/Connector/Fallback.antt =====
-- internal/client/connector.go: the attempts of one connection, and the fall back to Firefox.
use cloak.Prelude.{ℕ, zero, suc, ◌+◌, ◌≤◌, ◌≡◌, ◌≢◌, refl, Bytes, Bool, true, false, arith}
use cloak.Client.Config.{
  TransportConfig, chrome, firefox, safari, cdn, direct, Transport, create_transport,
}
use cloak.Client.Connector.{
  Attempt, not_dialed, not_sent, not_prepared, prepared, Connected, connected, fall_back, make_conn,
}

fall_back_twice : (config : TransportConfig) → fall_back (fall_back config) ≡ fall_back config
unfolding fall_back
fall_back_twice (cdn url) = refl
fall_back_twice (direct chrome) = refl
fall_back_twice (direct firefox) = refl
fall_back_twice (direct safari) = refl

abbrev pub is_prepared : Attempt → Bool
is_prepared not_dialed = false
is_prepared not_prepared = false
is_prepared not_sent = false
is_prepared (prepared c key) = true

-- From attempt `n` on the server can be dialed, and takes the transport that is fallen back to. What it
-- does before, and with the configured transport, is open, but that no handshake fails before it has
-- sent its first message.
pub record Reachable (network : Transport → ℕ → Attempt) (config : TransportConfig) (n : ℕ)
    : Type 0 where
  pub sends : (t : Transport) (m : ℕ) → network t m ≢ not_sent
  pub answers : (m : ℕ) → n ≤ m → network (create_transport config) m ≢ not_dialed
  pub takes : (m : ℕ) → n ≤ m → is_prepared (network (create_transport (fall_back config)) m) ≡ true

-- The connection is one that a handshake of the named transport prepared, at most one attempt after `n`.
pub record Comes (network : Transport → ℕ → Attempt) (n : ℕ) (c : Connected) : Type 0 where
  pub prepared_so : network c.transport c.attempt ≡ prepared c.conn c.session_key
  pub soon : c.attempt ≤ n + 1

data AttemptCases (a : Attempt) : Type 0 where
  was_not_dialed : a ≡ not_dialed → AttemptCases a
  was_not_sent : a ≡ not_sent → AttemptCases a
  was_not_prepared : a ≡ not_prepared → AttemptCases a
  was_prepared : (c : ℕ) (key : Bytes) → a ≡ prepared c key → AttemptCases a

attempt_cases : (a : Attempt) → AttemptCases a
attempt_cases not_dialed = was_not_dialed refl
attempt_cases not_sent = was_not_sent refl
attempt_cases not_prepared = was_not_prepared refl
attempt_cases (prepared c key) = was_prepared c key refl

module _ (network : Transport → ℕ → Attempt) where
  abbrev Result : ℕ → ℕ → TransportConfig → ℕ → Type 0
  Result n fuel config m =
      (c : Connected) × (make_conn network fuel config m ≡ connected c) × Comes network n c

  now_prepared :
      (n fuel : ℕ) (config : TransportConfig) (m c : ℕ) (key : Bytes)
      → network (create_transport config) m ≡ prepared c key
      → m ≤ n + 1
      → Result n (suc fuel) config m
  unfolding make_conn
  now_prepared n fuel config m c key e h = (
    record { conn = c; session_key = key; transport = create_transport config; attempt = m },
    ground (arith, e),
    record { prepared_so = e; soon = h },
  )

  taken :
      (n fuel m : ℕ) (config : TransportConfig)
      → Reachable network config n
      → n ≤ m
      → m ≤ n + 1
      → Result n (suc fuel) (fall_back config) m
  taken n fuel m config up late h =
      elim (attempt_cases (network (create_transport (fall_back config)) m)) [
        | was_not_dialed e ↦ ground (arith, e, up.takes m late)
        | was_not_sent e ↦ ground (arith, e, up.takes m late)
        | was_not_prepared e ↦ ground (arith, e, up.takes m late)
        | was_prepared c key e ↦ now_prepared n fuel (fall_back config) m c key e h
      ]

  fallen_back :
      (n : ℕ) (config : TransportConfig)
      → Reachable network config n
      → Reachable network (fall_back config) n
  fallen_back n config up = record {
    sends = up.sends;
    answers = λ m h e. ground (arith, e, up.takes m h);
    takes = λ m h. ground (arith, fall_back_twice config, up.takes m h);
  }

  from_attempt :
      (k n m : ℕ) (config : TransportConfig)
      → m + k ≡ n
      → Reachable network config n
      → Result n (suc (suc k)) config m
  unfolding make_conn
  from_attempt zero n m config e up = elim (attempt_cases (network (create_transport config) m)) [
    | was_not_dialed bad ↦ ground (arith, bad, up.answers m (omega (arith, e)))
    | was_not_sent bad ↦ ground (arith, bad, up.sends (create_transport config) m)
    | was_not_prepared bad ↦
        let (c, found, comes) = taken n 0 (m + 1) config up (omega (arith, e)) (omega (arith, e)) in
        (c, ground (arith, bad, found), comes)
    | was_prepared c key p ↦ now_prepared n 1 config m c key p (omega (arith, e))
  ]
  from_attempt (suc k) n m config e up =
      elim (attempt_cases (network (create_transport config) m)) [
        | was_not_dialed bad ↦
            let (c, found, comes) = from_attempt k n (m + 1) config (omega (arith, e)) up in
            (c, ground (arith, bad, found), comes)
        | was_not_sent bad ↦ ground (arith, bad, up.sends (create_transport config) m)
        | was_not_prepared bad ↦
            let (c, found, comes) =
              from_attempt k n (m + 1) (fall_back config) (omega (arith, e))
                (fallen_back n config up) in
            (c, ground (arith, bad, found), comes)
        | was_prepared c key p ↦ now_prepared n (suc (suc k)) config m c key p (omega (arith, e))
      ]

  -- If from attempt `n` on the server can be dialed and takes the transport that is fallen back to,
  -- whatever it does before and with Chrome's signature, and if no handshake fails before it has sent
  -- its first message, then the loop ends with a connection that a
  -- handshake prepared, after `n + 1` waits at most.
  pub make_conn-Comes :
      (n : ℕ) (config : TransportConfig)
      → Reachable network config n
      → (c : Connected) × (make_conn network (suc (suc n)) config 0 ≡ connected c)
        × Comes network n c
  make_conn-Comes n config up = from_attempt n n 0 config (omega arith) up
