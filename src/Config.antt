-- ===== src/Config.antt =====
-- The configuration of config/config.go: the sources in the order in which they count, and what the
-- parts of the vault are started with. Strings are their bytes. The flags and what the operating
-- system and encoding/json give are arguments; log.Fatalf is an error, after which nothing runs.
pub mod Paths
pub mod Start
use plan_vault_libp2p.Prelude.{
  ℕ, List, [], ◌∷◌, Option, none, some, Bool, true, false, not, Bytes, Bytes_eq, ◌==◌, Result, ok,
  err, panics, ◌>>=◌, ◌>>◌, if◌then◌else◌,
}
use plan_vault_libp2p.Prelude.Errors.{not_exist}

-- "/etc/plan-vault"
abbrev pub default_etc_dir : Bytes
default_etc_dir =
    47 ∷ 101 ∷ 116 ∷ 99 ∷ 47 ∷ 112 ∷ 108 ∷ 97 ∷ 110 ∷ 45 ∷ 118 ∷ 97 ∷ 117 ∷ 108 ∷ 116 ∷ []

-- "plan-vault"
abbrev pub plan_vault : Bytes
plan_vault = 112 ∷ 108 ∷ 97 ∷ 110 ∷ 45 ∷ 118 ∷ 97 ∷ 117 ∷ 108 ∷ 116 ∷ []

-- "vault.json"
abbrev pub vault_json : Bytes
vault_json = 118 ∷ 97 ∷ 117 ∷ 108 ∷ 116 ∷ 46 ∷ 106 ∷ 115 ∷ 111 ∷ 110 ∷ []

-- "vault.key"
abbrev vault_key : Bytes
vault_key = 118 ∷ 97 ∷ 117 ∷ 108 ∷ 116 ∷ 46 ∷ 107 ∷ 101 ∷ 121 ∷ []

-- "vault_cert.pem"
abbrev vault_cert_pem : Bytes
vault_cert_pem = 118 ∷ 97 ∷ 117 ∷ 108 ∷ 116 ∷ 95 ∷ 99 ∷ 101 ∷ 114 ∷ 116 ∷ 46 ∷ 112 ∷ 101 ∷ 109 ∷ []

-- "vault_key.pem"
abbrev vault_key_pem : Bytes
vault_key_pem = 118 ∷ 97 ∷ 117 ∷ 108 ∷ 116 ∷ 95 ∷ 107 ∷ 101 ∷ 121 ∷ 46 ∷ 112 ∷ 101 ∷ 109 ∷ []

-- "127.0.0.1"
abbrev localhost : Bytes
localhost = 49 ∷ 50 ∷ 55 ∷ 46 ∷ 48 ∷ 46 ∷ 48 ∷ 46 ∷ 49 ∷ []

-- "/DISCOVERY"
abbrev pub discovery_uri : Bytes
discovery_uri = 47 ∷ 68 ∷ 73 ∷ 83 ∷ 67 ∷ 79 ∷ 86 ∷ 69 ∷ 82 ∷ 89 ∷ []

-- "text"
abbrev text_format : Bytes
text_format = 116 ∷ 101 ∷ 120 ∷ 116 ∷ []

-- "cli"
abbrev cli_format : Bytes
cli_format = 99 ∷ 108 ∷ 105 ∷ []

pub record Flags : Type 0 where
  pub config_path : Bytes
  pub log_level : Bytes
  pub data_dir : Bytes
  pub keyring_dir : Bytes
  pub print_config : Bool

pub record StoreSection : Type 0 where
  pub data_dir : Bytes

pub record GrpcSection : Type 0 where
  pub bind_addr : Bytes
  pub port : ℕ
  pub insecure : Bool
  pub tls_cert : Bytes
  pub tls_key : Bytes

pub record P2pSection : Type 0 where
  pub mdns : Bool
  pub uri : Bytes
  pub tcp_addr : Bytes
  pub tcp_port : ℕ
  pub quic_addr : Bytes
  pub quic_port : ℕ

pub record MetricsSection : Type 0 where
  pub log_level : Bytes
  pub log_format : Bytes
  pub debug_addr : Bytes
  pub debug_port : ℕ
  pub disable_debug : Bool

-- A section is a pointer, which a file can set to null.
pub record ConfigSource : Type 0 where
  pub key_dir : Bytes
  pub store : Option StoreSection
  pub server : Option GrpcSection
  pub p2p : Option P2pSection
  pub metrics : Option MetricsSection

-- homedir.Expand, os.Stat, os.UserConfigDir, filepath.Join, ioutil.ReadFile, json.Unmarshal into
-- the defaults, and whether the standard output is a terminal.
pub record Environment : Type 0 where
  pub expand : Bytes → Result Bytes
  pub stat : Bytes → Result (Unit {0})
  pub user_config_dir : Option Bytes
  pub join : List Bytes → Bytes
  pub read_file : Bytes → Result Bytes
  pub unmarshal_config : Bytes → ConfigSource → Result ConfigSource
  pub is_tty : Bool

-- The program prints its configuration and exits, or goes on.
pub data Outcome (A : Type 0) : Type 0 where
  printed : ConfigSource → Outcome A
  goes_on : A → Outcome A

-- The sections of the configuration that the parts are started with.
pub record Config : Type 0 where
  pub data_dir : Bytes
  pub has_discovery : Bool
  pub server : GrpcSection
  pub p2p : P2pSection
  pub key_file : Bytes
  pub metrics : MetricsSection

-- A nil section is dereferenced.
abbrev section : {A : Type 0} → Option A → Result A
section none = panics
section (some s) = ok s

module _ (E : Environment) where
  unfoldable default_config_src : Flags → Result ConfigSource
  default_config_src flags = do
    keyring_dir ← E.expand flags.keyring_dir
    data_dir ← E.expand flags.data_dir
    ok (record {
      key_dir = keyring_dir;
      store = some (record { data_dir = data_dir });
      server = some (record {
        bind_addr = localhost;
        port = 5190;
        insecure = false;
        tls_cert = E.join (keyring_dir ∷ vault_cert_pem ∷ []);
        tls_key = E.join (keyring_dir ∷ vault_key_pem ∷ []);
      });
      p2p = some (record {
        mdns = true;
        uri = discovery_uri;
        tcp_addr = localhost;
        tcp_port = 9051;
        quic_addr = localhost;
        quic_port = 9051;
      });
      metrics = some (record {
        log_level = flags.log_level;
        log_format = if E.is_tty then cli_format else text_format;
        debug_addr = localhost;
        debug_port = 9052;
        disable_debug = false;
      });
    })

  -- A missing file lets the search go on, any other error ends the program.
  abbrev or_next : Bytes → Result (Unit {0}) → Result Bytes → Result Bytes
  or_next path (ok _) next = ok path
  or_next path (err not_exist) next = next
  or_next path (err e) next = err e
  or_next path panics next = panics

  etc_path : Bytes
  etc_path = E.join (default_etc_dir ∷ vault_json ∷ [])

  -- UserConfigDir gives no directory when it fails, which is passed over.
  abbrev user_path : Option Bytes → Result Bytes → Result Bytes
  user_path (some dir) next =
      let path = E.join (dir ∷ plan_vault ∷ vault_json ∷ []) in or_next path (E.stat path) next
  user_path none next = next

  -- The path of the flag, which is not passed over when it is missing, or the first default.
  unfoldable pub given_or_default : Bytes → Result Bytes
  unfolding etc_path
  given_or_default path =
      if path == []
      then user_path E.user_config_dir (or_next etc_path (E.stat etc_path) (ok []))
      else (E.stat path >>= λ _. ok path)

  -- The empty path stands for no file.
  unfoldable pub config_file_path : Flags → Result Bytes
  unfolding given_or_default
  config_file_path flags = do path ← E.expand flags.config_path; given_or_default path

  -- A file that is gone by now is read as one without bytes.
  abbrev data_or_nil : Result Bytes → Result Bytes
  data_or_nil (err not_exist) = ok []
  data_or_nil r = r

  unfoldable read_source : Bytes → ConfigSource → Result ConfigSource
  read_source path src =
      if path == []
      then ok src
      else (do bytes ← data_or_nil (E.read_file path); E.unmarshal_config bytes src)

  unfoldable pub new_config_source : Flags → Result (Outcome ConfigSource)
  unfolding default_config_src config_file_path read_source
  new_config_source flags = do
    src ← default_config_src flags
    path ← config_file_path flags
    src' ← read_source path src
    ok (if flags.print_config then printed src' else goes_on src')

  unfoldable pub of_source : ConfigSource → Result Config
  of_source src = do
    metrics ← section src.metrics
    store ← section src.store
    p2p ← section src.p2p
    server ← section src.server
    ok (record {
      data_dir = store.data_dir;
      has_discovery = not (p2p.uri == []);
      server = server;
      p2p = p2p;
      key_file = E.join (src.key_dir ∷ vault_key ∷ []);
      metrics = metrics;
    })

  unfoldable pub of_outcome : Outcome ConfigSource → Result (Outcome Config)
  unfolding of_source
  of_outcome (printed src) = ok (printed src)
  of_outcome (goes_on src) = do cfg ← of_source src; ok (goes_on cfg)

  unfoldable pub new_config : Flags → Result (Outcome Config)
  unfolding new_config_source of_outcome
  new_config flags = do outcome ← new_config_source flags; of_outcome outcome
