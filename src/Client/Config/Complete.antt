-- ===== src/Client/Config/Complete.antt =====
-- internal/client/state.go: what accepted configurations become.
use cloak.Prelude.{ℕ, ◌≡◌, ◌≢◌, ◌<◌, Bytes, false, not_positive, some, arith}
use cloak.Multiplex.Obfs.{Ciphers, make_obfuscator, unknown_method}
use cloak.Multiplex.Obfs as Obfs
use cloak.Client.Config.{
  RawConfig, Processed, ok, encryption_method_of, process_hosts, process_keys, process_raw_config,
  transport_of,
}

pub known_method : (name : Bytes) (m : ℕ) → encryption_method_of name ≡ some m → m < 4
unfolding encryption_method_of
known_method name m h = ground arith

make_obfuscator_known :
    (cs : Ciphers) (key : Bytes) (m : ℕ)
    → m < 4
    → make_obfuscator cs m key ≢ Obfs.err unknown_method
unfolding make_obfuscator
make_obfuscator_known cs key m h e = ground arith

pub process_raw_config-method :
    (raw : RawConfig) (c : Processed)
    → process_raw_config raw ≡ ok c
    → encryption_method_of raw.encryption_method ≡ some c.auth.encryption_method
unfolding process_raw_config process_keys process_hosts
process_raw_config-method raw c h = ground arith

-- The encryption method of an accepted configuration is one for which both sides can make an
-- obfuscator.
pub process_raw_config-make_obfuscator :
    (raw : RawConfig) (c : Processed) (cs : Ciphers) (key : Bytes)
    → process_raw_config raw ≡ ok c
    → make_obfuscator cs c.auth.encryption_method key ≢ Obfs.err unknown_method
process_raw_config-make_obfuscator raw c cs key h =
    make_obfuscator_known cs key c.auth.encryption_method (
      known_method raw.encryption_method c.auth.encryption_method
        (process_raw_config-method raw c h))

-- The interval of the keep-alive messages is not that of the configuration: any two positive values
-- of it make the same client, whose interval is zero.
pub process_raw_config-keep_alive :
    (raw : RawConfig) (k : ℕ) (c : Processed)
    → not_positive raw.keep_alive ≡ false
    → not_positive k ≡ false
    → process_raw_config raw ≡ ok c
    → (process_raw_config (record raw { keep_alive = k }) ≡ ok c) × (c.remote.keep_alive ≡ 0)
unfolding process_raw_config process_keys process_hosts transport_of
process_raw_config-keep_alive raw k c old new h = (ground arith, ground arith)
