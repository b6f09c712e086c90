-- ===== src/Config/Secrets.antt =====
-- Which environments load: what a production one may not use as a secret.
use realtime_game_server.Base.{
  ◌≡◌, ◌≢◌, ◌↔◌, refl, ap, ◌∙◌, false, Option, none, some, List, [], ◌∷◌, arith, any, All,
  Option-cases, Bool-cases, inl, inr,
}
use realtime_game_server.Base.Text.{Text, codes, includes}
use realtime_game_server.Base.Text.Includes.{HasPart, includes_iff}
use realtime_game_server.Config.{
  NodeEnv, development, test, production, Env, Issue, weak_secret_markers, reject_weak_secret,
  secret_issues, admin_issues, refine, accepted, load_env,
}

abbrev pub admin_markers : List Text
admin_markers = codes "change-me" ∷ codes "dev-admin" ∷ []

-- none of the markers stands in the text
abbrev pub HasNone : List Text → Text → Type 0
HasNone markers text = All (λ marker. ¬ HasPart marker text) markers

any-HasNone :
    (markers : List Text) (text : Text)
    → any (λ marker. includes marker text) markers ≡ false
    → HasNone markers text
any-HasNone [] text h = tt
any-HasNone (m ∷ ms) text h = (
  (λ p. absurd (ground (arith, (includes_iff m text).1 p, h))),
  any-HasNone ms text (ground (arith, h)),
)

HasNone-any :
    (markers : List Text) (text : Text)
    → HasNone markers text
    → any (λ marker. includes marker text) markers ≡ false
HasNone-any [] text h = refl
HasNone-any (m ∷ ms) text (h, hs) = elim (Bool-cases (includes m text)) [
  | inl found ↦ absurd (h ((includes_iff m text).0 found))
  | inr lacks ↦ ground (arith, lacks, HasNone-any ms text hs)
]

module _ (to_lower_case : Text → Text) where
  -- In production no secret has a placeholder's marker, in whatever case it is written.
  pub record IsSafe (value : Env) : Type 0 where
    pub access :
        value.node_env ≡ production
        → HasNone weak_secret_markers (to_lower_case value.jwt_access_secret)
    pub refresh :
        value.node_env ≡ production
        → HasNone weak_secret_markers (to_lower_case value.jwt_refresh_secret)
    pub admin :
        value.node_env ≡ production
        → (key : Text) → value.admin_api_key ≡ some key
        → key ≢ []
        → HasNone admin_markers (to_lower_case key)

  accepted_secret :
      (secret : Text) (e : NodeEnv)
      → reject_weak_secret to_lower_case secret e ≡ false
      → e ≡ production
      → HasNone weak_secret_markers (to_lower_case secret)
  unfolding reject_weak_secret
  accepted_secret secret e h p = any-HasNone weak_secret_markers (to_lower_case secret) (rw p at h)

  secret_accepted :
      (secret : Text) (e : NodeEnv)
      → (e ≡ production → HasNone weak_secret_markers (to_lower_case secret))
      → reject_weak_secret to_lower_case secret e ≡ false
  unfolding reject_weak_secret
  secret_accepted secret production h =
      HasNone-any weak_secret_markers (to_lower_case secret) (h refl)
  secret_accepted secret development h = refl
  secret_accepted secret test h = refl

  accepted_admin :
      (e : NodeEnv) (c : Option Text)
      → admin_issues to_lower_case e c ≡ []
      → e ≡ production
      → (key : Text) → c ≡ some key
      → key ≢ []
      → HasNone admin_markers (to_lower_case key)
  unfolding admin_issues
  accepted_admin e c h p [] f n = absurd (n refl)
  accepted_admin e c h p (k ∷ ks) f n =
      let h' = rw f at (rw p at h) in
      any-HasNone admin_markers (to_lower_case (k ∷ ks)) (ground (arith, h'))

  admin_accepted :
      (e : NodeEnv) (c : Option Text)
      → (e ≡ production
          → (key : Text) → c ≡ some key
          → key ≢ []
          → HasNone admin_markers (to_lower_case key))
      → admin_issues to_lower_case e c ≡ []
  unfolding admin_issues
  admin_accepted e none h = refl
  admin_accepted development (some key) h = refl
  admin_accepted test (some key) h = refl
  admin_accepted production (some []) h = refl
  admin_accepted production (some (k ∷ ks)) h =
      let none_there =
        HasNone-any admin_markers (to_lower_case (k ∷ ks))
          (h refl (k ∷ ks) refl (λ e. absurd (ground (arith, e)))) in
      ground (arith, none_there)

  refine-IsSafe : (value : Env) → refine to_lower_case value ≡ [] → IsSafe value
  unfolding refine secret_issues
  refine-IsSafe value h =
      let access = reject_weak_secret to_lower_case value.jwt_access_secret value.node_env in
      let refresh = reject_weak_secret to_lower_case value.jwt_refresh_secret value.node_env in
      record {
        access = accepted_secret value.jwt_access_secret value.node_env (ground (arith, h));
        refresh = accepted_secret value.jwt_refresh_secret value.node_env (ground (arith, h));
        admin = accepted_admin value.node_env value.admin_api_key (ground (arith, h));
      }

  IsSafe-refine : (value : Env) → IsSafe value → refine to_lower_case value ≡ []
  unfolding refine secret_issues
  IsSafe-refine value s = ground (
    arith,
    secret_accepted value.jwt_access_secret value.node_env s.access,
    secret_accepted value.jwt_refresh_secret value.node_env s.refresh,
    admin_accepted value.node_env value.admin_api_key s.admin,
  )

  loaded :
      (read value : Env) (issues : List Issue)
      → accepted to_lower_case read issues ≡ some value
      → (issues ≡ []) × (read ≡ value)
  loaded read value [] h = (refl, ground (arith, h))
  loaded read value (i ∷ is') h = absurd (ground (arith, h))

  -- An environment loads exactly if the schema reads it and, in production, neither secret of the
  -- tokens contains a placeholder's marker and no administrator's key that is set contains
  -- `change-me` or `dev-admin`, each in lower case.
  pub load_env-IsSafe :
      {Process : Type 0} (parse : Process → Option Env) (process : Process) (value : Env)
      → (load_env to_lower_case parse process ≡ some value)
        ↔ ((parse process ≡ some value) × IsSafe value)
  unfolding load_env
  load_env-IsSafe parse process value = (
    (λ h. elim (Option-cases (parse process)) [
      | inl absent ↦ absurd (ground (arith, h, absent))
      | inr (read, found) ↦
          let (clean, same) =
            loaded read value (refine to_lower_case read) (rw (found, load_env) at h) in
          (found ∙ ap some same, refine-IsSafe value (rw same at clean))
    ]),
    (λ (found, safe). rw (found, IsSafe-refine value safe, load_env) refl),
  )
