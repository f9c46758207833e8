-- ===== src/Config/Paths.antt =====
-- Which file the configuration is read from.
use plan_vault_libp2p.Prelude.{
  ◌≡◌, ◌≢◌, ◌↔◌, ◌⊎◌, inl, inr, refl, sym, ap, ◌∙◌, subst, List, [], ◌∷◌, Option, some, none, Bytes,
  Bytes_eq, ◌==◌, Result, ok, err, panics, ◌>>=◌, >>=-eq-ok, ok-injective, Bool-cases,
}
use plan_vault_libp2p.Prelude.ByteStrings.{bytes_beq_iff}
use plan_vault_libp2p.Prelude.Errors.{not_exist}
use plan_vault_libp2p.Config.{
  Environment, Flags, plan_vault, vault_json, etc_path, or_next, user_path, given_or_default,
  config_file_path,
}

module _ (E : Environment) where
  -- The first of some paths that is there, or the empty path; the ones before it are missing.
  pub data Finds : List Bytes → Bytes → Type 0 where
    nowhere : Finds [] []
    here : {p : Bytes} {ps : List Bytes} → E.stat p ≡ ok tt → Finds (p ∷ ps) p
    later :
        {p q : Bytes} {ps : List Bytes} → E.stat p ≡ err not_exist → Finds ps q → Finds (p ∷ ps) q

  -- The user's file, if the user has a directory, and the one in /etc.
  pub defaults : Option Bytes → List Bytes
  defaults (some dir) = E.join (dir ∷ plan_vault ∷ vault_json ∷ []) ∷ etc_path E ∷ []
  defaults none = etc_path E ∷ []

  abbrev first_of : List Bytes → Result Bytes
  first_of [] = ok []
  first_of (p ∷ ps) = or_next E p (E.stat p) (first_of ps)

  first_of-Finds : (ps : List Bytes) (q : Bytes) → first_of ps ≡ ok q → Finds ps q
  first_of-Finds [] q h = subst (Finds []) (ok-injective h) nowhere
  first_of-Finds (p ∷ ps) q h = of_stat (first_of-Finds ps) _ refl h
    where
      of_stat :
          (rest : (q : Bytes) → first_of ps ≡ ok q → Finds ps q) (r : Result (Unit {0}))
          → E.stat p ≡ r
          → or_next E p r (first_of ps) ≡ ok q
          → Finds (p ∷ ps) q
      of_stat rest (ok _) there h' = subst (Finds (p ∷ ps)) (ok-injective h') (here there)
      of_stat rest (err not_exist) missing h' = later missing (rest q h')
      of_stat rest (err _) other h' = cc
      of_stat rest panics other h' = cc

  Finds-first_of : (ps : List Bytes) (q : Bytes) → Finds ps q → first_of ps ≡ ok q
  Finds-first_of _ _ nowhere = refl
  Finds-first_of _ _ (here there) = rw there refl
  Finds-first_of _ _ (later missing f) = rw missing (Finds-first_of _ _ f)

  user_path-first_of :
      (dir : Option Bytes) → user_path E dir (first_of (etc_path E ∷ [])) ≡ first_of (defaults dir)
  unfolding defaults
  user_path-first_of (some dir) = refl
  user_path-first_of none = refl

  given : (path : Bytes) → path ≢ [] → given_or_default E path ≡ (E.stat path >>= λ _. ok path)
  unfolding given_or_default
  given path there = elim (Bool-cases (path == [])) [
    | inl empty ↦ absurd (there ((bytes_beq_iff path []).0 empty))
    | inr other ↦ rw (other, given_or_default) refl
  ]

  -- When the path of the flag expands, then the configuration's path is `q` exactly if the flag
  -- names `q` and that file is there; or the flag is empty, and `q` is the first of the user's
  -- file and the one in /etc that is there, with only missing ones before it, or the empty path if
  -- both are missing.
  pub config_file_path_lem :
      (flags : Flags) (path q : Bytes)
      → E.expand flags.config_path ≡ ok path
      → (config_file_path E flags ≡ ok q) ↔ (
          ((path ≢ []) × (path ≡ q) × (E.stat path ≡ ok tt))
          ⊎ ((path ≡ []) × Finds (defaults E.user_config_dir) q))
  unfolding config_file_path given_or_default
  config_file_path_lem flags path q expands = (
    λ h.
        let h' : given_or_default E path ≡ ok q =
          ap (λ (r : Result Bytes). r >>= given_or_default E) (sym expands) ∙ h in
        chosen path h',
    λ c. ap (λ (r : Result Bytes). r >>= given_or_default E) expands ∙ elim c [
      | inl (there, same, stats) ↦ given path there ∙ rw stats (ap ok same)
      | inr (empty, finds) ↦
          ap (given_or_default E) empty
          ∙ user_path-first_of E.user_config_dir
          ∙ Finds-first_of _ q finds
    ],
  )
    where
      chosen :
          (path : Bytes)
          → given_or_default E path ≡ ok q
          → ((path ≢ []) × (path ≡ q) × (E.stat path ≡ ok tt))
            ⊎ ((path ≡ []) × Finds (defaults E.user_config_dir) q)
      chosen [] h = inr (refl, first_of-Finds _ q (sym (user_path-first_of E.user_config_dir) ∙ h))
      chosen (b ∷ bs) h =
          let (_, stats, last) = >>=-eq-ok (E.stat (b ∷ bs)) _ h in
          inl (λ e. cc, ok-injective last, stats)
