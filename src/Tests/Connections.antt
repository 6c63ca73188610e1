-- ===== src/Tests/Connections.antt =====
-- internal/server/dispatcher.go at work: connections of a prober and of a client, over WebSocket.
use cloak.Prelude.{
  ◌≡◌, ◌≢◌, ◌⊎◌, refl, inl, Bytes, replicate, [], ◌∷◌, ◌++◌, some, none, arith, true, to_array,
  copy_into,
}
use cloak.Multiplex.Obfs.{make_obfuscator}
use cloak.Ecdh.{unmarshal, generate_shared_secret, aes_gcm_decrypt}
use cloak.Server.Auth.{
  ok, bad_get, AuthFragments, decrypt_client_info, register_random, auth_fragments, info_of,
}
use cloak.Server.WebSocket.{unmarshal_hidden}
use cloak.Server.UserManager as Manager
use cloak.Server.UserPanel.{find_user}
use cloak.Server.UserPanel.Users.{UserManager, get_session, get_user}
use cloak.Server.FirstPacket.{first_packet_size, read_first_packet}
use cloak.Server.FirstPacket.Transparent.{Faithful, read_first_packet-Faithful}
use cloak.Server.Dispatcher.{
  State, Env, redirected, closed, serving, dispatch_connection, member, authenticate, admit,
  admit_user, process_websocket, go_web, is_bypass,
}
use cloak.Server.Dispatcher.Redirection.{redirection_transparent}
use cloak.Server.Dispatcher.Admission.{identity, is_open, probe_redirected, served_is_authentic}
use cloak.Server.Dispatcher.Once.{dispatch_all, replay_redirected}
use cloak.Server.Dispatcher.ServedOnce.{session_served_once}
use cloak.Tests.Ciphers.{tagging}
use cloak.Tests.Logins.{tagging_gcm, adding, plaintext, now}

-- A user manager that lets everybody in.
abbrev open_manager : UserManager
open_manager = record {
  authenticate_user = λ uid. Manager.ok (10, 20);
  authorise_new_session = λ uid n. Manager.ok tt;
}

abbrev server : Env
server = record {
  curve = adding;
  aes = tagging_gcm;
  ciphers = record { aes_gcm = λ key. some tagging; chacha20_poly1305 = λ key. some tagging };
  manager = open_manager;
  hidden_header = λ packet. some (replicate 32 5 ++ plaintext ++ replicate 16 9);
  server_time = now;
  session_key = replicate 32 6;
  web_answers = true;
  web_takes = true;
  handshake_done = true;
}

-- A server that knows no secret header.
abbrev deaf : Env
deaf = record server { hidden_header = λ packet. none }

abbrev start : State
start = record {
  panel = record { active_users = []; usage_update_queue = []; closed_sessions = [] };
  used_random = [];
  proxy_book = (2 ∷ []) ∷ [];
  admin_uid = [];
  bypass_uid = [];
  static_pv = replicate 32 8;
}

-- A request with an empty line at once, and two bytes after it.
abbrev request : Bytes
request = 71 ∷ 10 ∷ 13 ∷ 10 ∷ 8 ∷ 9 ∷ []

read_first_packet-Faithful_example :
    Faithful first_packet_size request (read_first_packet first_packet_size request)
read_first_packet-Faithful_example =
    read_first_packet-Faithful first_packet_size request (omega arith)

redirection_transparent_example :
    (71 ∷ 10 ∷ 13 ∷ 10 ∷ (dispatch_connection deaf start request).rest ≡ request)
    × ((dispatch_connection deaf start request).state.panel ≡ start.panel)
unfolding dispatch_connection authenticate process_websocket go_web read_first_packet auth_fragments
redirection_transparent_example =
    redirection_transparent deaf start request (71 ∷ 10 ∷ 13 ∷ 10 ∷ []) refl

probe_redirected_example :
    ((dispatch_connection deaf start request).fate
      ≡ redirected (read_first_packet first_packet_size request).packet)
    ⊎ (((dispatch_connection deaf start request).fate ≡ closed)
        × ((dispatch_connection deaf start request).rest ≡ []))
unfolding process_websocket read_first_packet auth_fragments
probe_redirected_example = probe_redirected deaf start request bad_get refl refl refl

served_is_authentic_example :
    (identity server start request ≡ ok (info_of plaintext))
    × (member (info_of plaintext).proxy_method start.proxy_book ≡ true)
    × (is_open
          (dispatch_connection server start request).state.panel
          (to_array 16 (info_of plaintext).uid)
          (info_of plaintext).session_id
        ≡ true)
unfolding dispatch_connection authenticate admit admit_user process_websocket unmarshal_hidden
    go_web read_first_packet decrypt_client_info is_bypass auth_fragments unmarshal copy_into
    generate_shared_secret register_random aes_gcm_decrypt make_obfuscator get_user find_user
    get_session
served_is_authentic_example =
    served_is_authentic server start request (info_of plaintext) (inl refl)

abbrev fragments : AuthFragments
fragments = record {
  shared_secret = replicate 32 13;
  rand_pub_key = replicate 32 5;
  ciphertext_with_tag = plaintext ++ replicate 16 9;
}

abbrev after : State
after = (dispatch_connection server start request).state

replay_redirected_example :
    ((dispatch_connection server (dispatch_all after ((deaf, request) ∷ [])) request).fate
      ≡ redirected (read_first_packet first_packet_size request).packet)
    ⊎ (((dispatch_connection server (dispatch_all after ((deaf, request) ∷ [])) request).fate
          ≡ closed)
        × ((dispatch_connection server (dispatch_all after ((deaf, request) ∷ [])) request).rest
            ≡ []))
unfolding dispatch_all dispatch_connection authenticate admit admit_user process_websocket
    unmarshal_hidden go_web read_first_packet decrypt_client_info is_bypass auth_fragments unmarshal
    copy_into generate_shared_secret register_random aes_gcm_decrypt make_obfuscator get_user
    find_user get_session
replay_redirected_example =
    replay_redirected server server start request request ((deaf, request) ∷ []) fragments fragments
      refl refl refl refl refl refl

-- The same client with another random field, later.
abbrev server' : Env
server' = record server {
  hidden_header = λ packet. some (replicate 32 7 ++ plaintext ++ replicate 16 9);
}

session_served_once_example :
    (dispatch_connection server' after request).fate ≢ serving (info_of plaintext)
unfolding dispatch_connection authenticate admit admit_user process_websocket unmarshal_hidden
    go_web read_first_packet decrypt_client_info is_bypass auth_fragments unmarshal copy_into
    generate_shared_secret register_random aes_gcm_decrypt make_obfuscator get_user find_user
    get_session
session_served_once_example =
    session_served_once server server' start request request (info_of plaintext) (info_of plaintext)
      (info_of plaintext) refl refl refl refl refl refl
