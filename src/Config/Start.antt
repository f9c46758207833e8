-- ===== src/Config/Start.antt =====
-- How main.go puts the parts together: the configuration, the store, and the peer to peer host.
use plan_vault_libp2p.Prelude.{
  ◌≡◌, refl, sym, ap, ◌∙◌, subst, [], Option, none, some, Bool, true, false, not, Bytes, Bytes_eq,
  ◌==◌, Result, ok, ◌>>=◌, >>=-eq-ok, ok-injective, Bool-cases, inl, inr,
}
use plan_vault_libp2p.Interfaces.Network.{Libraries}
use plan_vault_libp2p.Store.Channels.{Store}
use plan_vault_libp2p.Store.Channels
use plan_vault_libp2p.P2P.{Host}
use plan_vault_libp2p.P2P.Run.{Setup, new, start_host}
use plan_vault_libp2p.Config.{
  Environment, Flags, ConfigSource, Config, Outcome, printed, goes_on, section, new_config,
  of_source, of_outcome, new_config_source,
}

abbrev pub is_some : {A : Type 0} → Option A → Bool
is_some none = false
is_some (some a) = true

module _ (X : Libraries) (E : Environment) where
  abbrev pub Parts : Type 0
  Parts = Store X.badger × Option (Host X)

  -- The configuration of the host, with what libp2p and the key file give.
  abbrev setup_of : Setup X → Config → Setup X
  setup_of given cfg = record given { uri = cfg.p2p.uri; mdns = cfg.p2p.mdns }

  -- From the configuration on, up to the start of the server.
  unfoldable start_parts : (Bytes → Result X.badger.Db) → Setup X → Bytes → Config → Result Parts
  start_parts open_db given uuid cfg = do
    s ← Channels.new X.badger (open_db cfg.data_dir) cfg.has_discovery
    host ← new X (setup_of given cfg) s uuid
    ok (s, host)

  unfoldable start_outcome :
      (Bytes → Result X.badger.Db) → Setup X → Bytes → Outcome Config → Result (Outcome Parts)
  unfolding start_parts
  start_outcome open_db given uuid (printed src) = ok (printed src)
  start_outcome open_db given uuid (goes_on cfg) = do
    parts ← start_parts open_db given uuid cfg
    ok (goes_on parts)

  unfoldable pub main :
      (Bytes → Result X.badger.Db) → Setup X → Bytes → Flags → Result (Outcome Parts)
  unfolding start_outcome
  main open_db given uuid flags = do
    outcome ← new_config E flags
    start_outcome open_db given uuid outcome

  new-has_update_ch :
      (opened : Result X.badger.Db) (b : Bool) (s : Store X.badger)
      → Channels.new X.badger opened b ≡ ok s
      → s.has_update_ch ≡ b
  unfolding Channels.new
  new-has_update_ch opened b s e =
      let (db, o, last) = >>=-eq-ok opened _ e in
      sym (ap (λ (t : Store X.badger). t.has_update_ch) (ok-injective last))

  new-is_some :
      (cfg : Setup X) (s : Store X.badger) (uuid : Bytes) (h : Option (Host X))
      → new X cfg s uuid ≡ ok h
      → is_some h ≡ not (cfg.uri == [])
  unfolding new
  new-is_some cfg s uuid h e = elim (Bool-cases (cfg.uri == [])) [
    | inl empty ↦
        sym (ap (λ (o : Option (Host X)). is_some o) (ok-injective (rw (empty, new) at e)))
        ∙ rw empty refl
    | inr other ↦
        let (k, _, last) = >>=-eq-ok (start_host X cfg s uuid) _ (rw (other, new) at e) in
        sym (ap (λ (o : Option (Host X)). is_some o) (ok-injective last)) ∙ rw other refl
  ]

  of_source-has_discovery :
      (src : ConfigSource) (cfg : Config)
      → of_source E src ≡ ok cfg
      → cfg.has_discovery ≡ not (cfg.p2p.uri == [])
  unfolding of_source
  of_source-has_discovery src cfg e =
      let (a, _, e1) = >>=-eq-ok (section src.metrics) _ e in
      let (b, _, e2) = >>=-eq-ok (section src.store) _ e1 in
      let (c, _, e3) = >>=-eq-ok (section src.p2p) _ e2 in
      let (d, _, e4) = >>=-eq-ok (section src.server) _ e3 in
      subst (λ (k : Config). k.has_discovery ≡ not (k.p2p.uri == [])) (ok-injective e4) refl

  of_outcome-has_discovery :
      (o : Outcome ConfigSource) (cfg : Config)
      → of_outcome E o ≡ ok (goes_on cfg)
      → cfg.has_discovery ≡ not (cfg.p2p.uri == [])
  unfolding of_outcome
  of_outcome-has_discovery (printed src) cfg e = cc
  of_outcome-has_discovery (goes_on src) cfg e =
      let (k, made, last) = >>=-eq-ok (of_source E src) _ e in
      of_source-has_discovery src cfg (made ∙ ap ok (of_goes_on (ok-injective last)))
    where
      of_goes_on : {a b : Config} → goes_on a ≡ goes_on b → a ≡ b
      of_goes_on h = cc

  start_outcome-ok :
      (open_db : Bytes → Result X.badger.Db) (given : Setup X) (uuid : Bytes) (o : Outcome Config)
      (parts : Parts)
      → start_outcome open_db given uuid o ≡ ok (goes_on parts)
      → (cfg : Config) × (o ≡ goes_on cfg) × (start_parts open_db given uuid cfg ≡ ok parts)
  unfolding start_outcome
  start_outcome-ok open_db given uuid (printed src) parts e = cc
  start_outcome-ok open_db given uuid (goes_on cfg) parts e =
      let (p, starts, last) = >>=-eq-ok (start_parts open_db given uuid cfg) _ e in
      (cfg, refl, starts ∙ ap ok (of_goes_on (ok-injective last)))
    where
      of_goes_on : {a b : Parts} → goes_on a ≡ goes_on b → a ≡ b
      of_goes_on h = cc

  -- When main gets as far as the server, then the store announces its new channels exactly if there
  -- is a peer to peer host, whose loop takes the announcements.
  pub announces_iff_host :
      (open_db : Bytes → Result X.badger.Db) (given : Setup X) (uuid : Bytes) (flags : Flags)
      (s : Store X.badger) (host : Option (Host X))
      → main open_db given uuid flags ≡ ok (goes_on (s, host))
      → s.has_update_ch ≡ is_some host
  unfolding main new_config start_parts
  announces_iff_host open_db given uuid flags s host e =
      let (o, configured, e1) = >>=-eq-ok (new_config E flags) _ e in
      let (cfg, same, e2) = start_outcome-ok open_db given uuid o (s, host) e1 in
      let (src, sourced, made) = >>=-eq-ok (new_config_source E flags) _ configured in
      let (t, opened, e3) =
        >>=-eq-ok (Channels.new X.badger (open_db cfg.data_dir) cfg.has_discovery) _ e2 in
      let (h, hosted, last) = >>=-eq-ok (new X (setup_of given cfg) t uuid) _ e3 in
      let agree : t.has_update_ch ≡ is_some h =
        new-has_update_ch _ cfg.has_discovery t opened
        ∙ of_outcome-has_discovery src cfg (made ∙ ap ok same)
        ∙ sym (new-is_some (setup_of given cfg) t uuid h hosted) in
      subst (λ (p : Parts). p.0.has_update_ch ≡ is_some p.1) (ok-injective last) agree
