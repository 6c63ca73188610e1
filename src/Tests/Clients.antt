-- ===== src/Tests/Clients.antt =====
-- internal/client/state.go: configurations of a client at work.
use cloak.Prelude.{
  copy_into, ◌≡◌, ◌≢◌, refl, Bytes, false, codes, join, map, replicate, List, [], ◌∷◌, ◌++◌, some,
}
use cloak.Ecdh.{unmarshal}
use cloak.Multiplex.Obfs.{Ciphers, make_obfuscator, unknown_method}
use cloak.Multiplex.Obfs as Obfs
use cloak.Client.Options.{backslash, ssv_to_json}
use cloak.Client.Options.Members.{ssv_of, json_of, ssv_to_json-ssv_of, ssv_to_json-escaped}
use cloak.Client.Config.{
  RawConfig, ok, processed, encryption_method_of, process_hosts, process_keys, process_raw_config,
}
use cloak.Client.Config.Complete.{process_raw_config-make_obfuscator, process_raw_config-keep_alive}
use cloak.Tests.Ciphers.{tagging}

abbrev names : Bytes × Bytes
names = (codes "AlternativeNames", codes "a.com,b.com")

abbrev others : List (Bytes × Bytes)
others = (codes "NumConn", codes "4") ∷ ((codes "Transport", codes "direct") ∷ [])

ssv_to_json-ssv_of_example :
    ssv_to_json (ssv_of names others ++ b';' ∷ [])
    ≡ b'{' ∷ (join b',' (map json_of (names ∷ others)) ++ b'}' ∷ [])
ssv_to_json-ssv_of_example =
    ssv_to_json-ssv_of names others []
      (refl, refl, refl, (refl, refl, refl, (refl, refl, refl, tt))) refl refl

json_of-names : json_of names ≡ codes "\"AlternativeNames\":[\"a.com\",\"b.com\"]"
json_of-names = refl

ssv_to_json-escaped_example :
    ssv_to_json (codes "CDNWsUrlPath=/a" ++ backslash ∷ (b';' ∷ codes "b=c"))
    ≡ ssv_to_json (codes "CDNWsUrlPath=/a" ++ b';' ∷ codes "b=c")
ssv_to_json-escaped_example = ssv_to_json-escaped (codes "CDNWsUrlPath=/a") (codes "b=c") refl refl

abbrev pub client_config : RawConfig
client_config = record {
  server_name = codes "www.example.com";
  proxy_method = codes "shadowsocks";
  encryption_method = codes "AES-GCM";
  uid = replicate 16 1;
  public_key = replicate 32 5;
  num_conn = 4;
  local_host = codes "127.0.0.1";
  local_port = codes "1984";
  remote_host = codes "1.2.3.4";
  remote_port = codes "443";
  alternative_names = codes "a.com" ∷ ([] ∷ []);
  udp = false;
  browser_sig = codes "Firefox";
  transport = codes "direct";
  cdn_origin_host = [];
  cdn_ws_url_path = [];
  stream_timeout = 0;
  keep_alive = 30;
}

abbrev pub ciphers : Ciphers
ciphers = record { aes_gcm = λ key. some tagging; chacha20_poly1305 = λ key. some tagging }

process_raw_config-make_obfuscator_example :
    make_obfuscator ciphers 1 (replicate 32 9) ≢ Obfs.err unknown_method
unfolding process_raw_config process_keys process_hosts encryption_method_of unmarshal copy_into
process_raw_config-make_obfuscator_example =
    process_raw_config-make_obfuscator client_config (processed client_config (replicate 32 5) 1)
      ciphers (replicate 32 9) refl

process_raw_config-keep_alive_example :
    (process_raw_config (record client_config { keep_alive = 5 })
      ≡ ok (processed client_config (replicate 32 5) 1))
    × ((processed client_config (replicate 32 5) 1).remote.keep_alive ≡ 0)
unfolding process_raw_config process_keys process_hosts encryption_method_of unmarshal copy_into
process_raw_config-keep_alive_example =
    process_raw_config-keep_alive client_config 5 (processed client_config (replicate 32 5) 1) refl
      refl refl
