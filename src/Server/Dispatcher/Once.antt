-- ===== src/Server/Dispatcher/Once.antt =====
-- internal/server/dispatcher.go: a first packet opens a session once.
use cloak.Prelude.{
  ◌≡◌, ◌⊎◌, refl, ap, ◌∙◌, Bytes, true, to_array, List, [], ◌∷◌, Option, none, arith, inl, inr,
}
use cloak.Server.Auth.{
  ClientInfo, AuthFragments, AuthResult, ok, err, replay, UsedRandom, auth_fragments, is_used,
  register_random,
}
use cloak.Server.Auth.Replay.{auth_fragments-is_used, registered}
use cloak.Server.UserPanel.{UserPanel}
use cloak.Server.UserPanel.Users.{
  SessionResult, existing, made, unauthorised, panicked, no_user, get_session,
}
use cloak.Server.FirstPacket.{Transport, first_packet_size, read_first_packet}
use cloak.Server.Dispatcher.{
  State, Env, closed, redirected, process_first_packet, after_session, find_active, admit_user,
  admit, authenticate, dispatch_connection,
}
use cloak.Server.Dispatcher.Redirection.{AuthResult-cases}
use cloak.Server.Dispatcher.Admission.{probe_redirected}

after_session-used :
    (env : Env) (sta : State) (info : ClientInfo) (r : SessionResult × UserPanel)
    → (after_session env sta info r).1
      ≡ record sta { panel = (after_session env sta info r).1.panel }
after_session-used env sta info (existing, panel) = refl
after_session-used env sta info (made, panel) = refl
after_session-used env sta info (unauthorised e, panel) = refl
after_session-used env sta info (panicked, panel) = refl
after_session-used env sta info (no_user, panel) = refl

admit_user-used :
    (env : Env) (sta : State) (info : ClientInfo) (packet : Bytes)
    → (admit_user env sta info packet).1.used_random ≡ sta.used_random
unfolding admit_user
admit_user-used env sta info packet =
    let found = find_active env sta info in
    let sta' = record sta { panel = found.1 } in
    let session = get_session env.manager found.1 (to_array 16 info.uid) info.session_id in
    ground (arith, after_session-used env sta' info session)

admit-used :
    (env : Env) (sta : State) (info : ClientInfo) (packet : Bytes)
    → (admit env sta info packet).1.used_random ≡ sta.used_random
unfolding admit
admit-used env sta info packet = ground (arith, admit_user-used env sta info packet)

-- What the transport makes of the first packet of a stream.
abbrev pub fragments_of : Env → State → Bytes → AuthResult AuthFragments
fragments_of env sta stream =
    let p = read_first_packet first_packet_size stream in
    process_first_packet env p.transport p.packet sta.static_pv

authenticate-used :
    (env : Env) (sta : State) (transport : Option Transport) (packet : Bytes)
    → (authenticate env sta transport packet).1.used_random
      ≡ (auth_fragments env.aes sta.used_random
          (process_first_packet env transport packet sta.static_pv)
          env.server_time).1
unfolding authenticate
authenticate-used env sta transport packet =
    let processed = process_first_packet env transport packet sta.static_pv in
    let r = auth_fragments env.aes sta.used_random processed env.server_time in
    let sta' = record sta { used_random = r.1 } in
    elim (AuthResult-cases r.0) [
      | inl (e, eq) ↦ ground arith
      | inr (info, eq) ↦ ground (arith, admit-used env sta' info packet)
    ]

-- A random field stays used, whatever connection comes.
dispatch_connection-is_used :
    (env : Env) (sta : State) (stream k : Bytes)
    → is_used k sta.used_random ≡ true
    → is_used k (dispatch_connection env sta stream).state.used_random ≡ true
unfolding dispatch_connection
dispatch_connection-is_used env sta stream k h =
    let p = read_first_packet first_packet_size stream in
    ground (
      arith,
      authenticate-used env sta p.transport p.packet,
      auth_fragments-is_used env.aes sta.used_random (fragments_of env sta stream) env.server_time
          k,
    )

dispatch_connection-registers :
    (env : Env) (sta : State) (stream : Bytes) (f : AuthFragments)
    → (read_first_packet first_packet_size stream).error ≡ none
    → fragments_of env sta stream ≡ ok f
    → is_used f.rand_pub_key (dispatch_connection env sta stream).state.used_random ≡ true
unfolding dispatch_connection
dispatch_connection-registers env sta stream f whole h =
    let p = read_first_packet first_packet_size stream in
    ground (
      arith,
      authenticate-used env sta p.transport p.packet,
      registered env.aes sta.used_random f env.server_time,
    )

-- Connections that come one after another, each at its time.
unfoldable pub dispatch_all : State → List (Env × Bytes) → State
dispatch_all sta [] = sta
dispatch_all sta ((env, stream) ∷ more) =
    dispatch_all (dispatch_connection env sta stream).state more

dispatch_all-is_used :
    (sta : State) (streams : List (Env × Bytes)) (k : Bytes)
    → is_used k sta.used_random ≡ true
    → is_used k (dispatch_all sta streams).used_random ≡ true
unfolding dispatch_all
dispatch_all-is_used sta [] k h = h
dispatch_all-is_used sta ((env, stream) ∷ more) k h =
    dispatch_all-is_used (dispatch_connection env sta stream).state more k
      (dispatch_connection-is_used env sta stream k h)

auth_fragments_used :
    (env : Env) (used : UsedRandom) (f : AuthFragments)
    → is_used f.rand_pub_key used ≡ true
    → (auth_fragments env.aes used (ok f) env.server_time).0 ≡ err replay
unfolding auth_fragments register_random
auth_fragments_used env used f h = ground arith

-- Once a whole first packet with a random field was looked at, whatever came of it, a later packet
-- with the same field opens nothing, whatever connections come between the two, as long as the cache
-- is not swept: while the redirection server is up its connection is redirected with all that was
-- read of it, or it is closed at its end.
pub replay_redirected :
    (env later : Env) (sta : State) (stream again : Bytes) (between : List (Env × Bytes))
    (f g : AuthFragments)
    → later.web_answers ≡ true
    → later.web_takes ≡ true
    → (read_first_packet first_packet_size stream).error ≡ none
    → fragments_of env sta stream ≡ ok f
    → fragments_of later (dispatch_all (dispatch_connection env sta stream).state between) again
      ≡ ok g
    → g.rand_pub_key ≡ f.rand_pub_key
    → ((dispatch_connection later
          (dispatch_all (dispatch_connection env sta stream).state between)
          again).fate
        ≡ redirected (read_first_packet first_packet_size again).packet)
      ⊎ (((dispatch_connection later
              (dispatch_all (dispatch_connection env sta stream).state between)
              again).fate
            ≡ closed)
          × ((dispatch_connection later
                (dispatch_all (dispatch_connection env sta stream).state between)
                again).rest
              ≡ []))
replay_redirected env later sta stream again between f g answers takes whole first second same =
    let sta' = dispatch_all (dispatch_connection env sta stream).state between in
    let seen : is_used g.rand_pub_key sta'.used_random ≡ true =
      ap (λ k. is_used k sta'.used_random) same
      ∙ dispatch_all-is_used (dispatch_connection env sta stream).state between f.rand_pub_key
          (dispatch_connection-registers env sta stream f whole first) in
    probe_redirected later sta' again replay answers takes (
      ap (λ r. (auth_fragments later.aes sta'.used_random r later.server_time).0) second
      ∙ auth_fragments_used later sta'.used_random g seen)
