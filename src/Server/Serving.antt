-- ===== src/Server/Serving.antt =====
-- `Run` of server/server.go: from the configuration to the gRPC server that is served. What the
-- listener and the library that reads the certificate give are arguments; `none` is a server
-- without transport credentials. Either failure ends the program.
use plan_vault_libp2p.Prelude.{
  Option, none, some, not, ◌&&◌, [], Bytes, Bytes_eq, ◌==◌, Result, ok, ◌>>=◌, ◌>>◌, if◌then◌else◌,
}
use plan_vault_libp2p.Config.{GrpcSection}

module _ {C : Type 0} (new_server_tls_from_file : Bytes → Bytes → Result C) where
  unfoldable credentials : GrpcSection → Result (Option C)
  credentials cfg =
      if not cfg.insecure && not (cfg.tls_cert == []) && not (cfg.tls_key == [])
      then (do creds ← new_server_tls_from_file cfg.tls_cert cfg.tls_key; ok (some creds))
      else ok none

  unfoldable pub serve : Result (Unit {0}) → GrpcSection → Result (Option C)
  unfolding credentials
  serve listened cfg = do listened; credentials cfg
