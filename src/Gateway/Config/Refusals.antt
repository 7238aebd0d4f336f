-- ===== src/Gateway/Config/Refusals.antt =====
-- When the configuration is refused.
use leartech_go_common.Base.{
  ◌≡◌, ◌≢◌, ◌↔◌, ◌⊎◌, refl, sym, ap, ◌∙◌, arith, not, List, [], ◌∷◌, Text, All, codes, is_empty,
  if◌then◌else◌,
}
use leartech_go_common.Base.Results.{ok, err}
use leartech_go_common.Base.Trim.{trim_space}
use leartech_go_common.Gateway.Config.{
  Config, provider_env, provider_names, set_names, provider_env_set, read_config, check_config,
  load_config, env_url, env_api_key, env_model, env_run_id, env_session_id,
}

set_names-unset :
    (env : Text → Text) (ks : List Text)
    → (set_names env ks ≡ []) ↔ All (λ k. trim_space (env k) ≡ []) ks
unfolding set_names
set_names-unset env [] = (λ h. tt, λ h. refl)
set_names-unset env (k ∷ ks) = (
  λ h. ground (arith, (set_names-unset env ks).0),
  λ h. ground (arith, (set_names-unset env ks).1),
)

-- What a configuration needs.
abbrev pub IsComplete : Config → Type 0
IsComplete c = (c.url ≢ []) × (c.api_key ≢ []) × ((c.run_id ≡ []) ⊎ (c.session_id ≡ []))

check_config-IsComplete : (c : Config) → (check_config c ≡ ok c) ↔ IsComplete c
unfolding check_config
check_config-IsComplete c = (λ h. ground arith, λ h. ground arith)

check_config-same : (c d : Config) → check_config c ≡ ok d → d ≡ c
unfolding check_config
check_config-same c d h = ground arith

unless_found :
    (found : List Text) (r c : Config)
    → ((if not (is_empty found) then err (provider_env found) else check_config r) ≡ ok c)
      ↔ ((found ≡ []) × (check_config r ≡ ok c))
unless_found [] r c = (λ h. (refl, h), λ (e, h). h)
unless_found (k ∷ ks) r c = (λ h. cc, λ (e, h). cc)

-- What the five variables say, trimmed.
abbrev pub from_env : (Text → Text) → Config
from_env env = record {
  url = trim_space (env (codes "LEARTECH_AIGW_URL"));
  api_key = trim_space (env (codes "LEARTECH_AIGW_API_KEY"));
  model = trim_space (env (codes "LEARTECH_AIGW_MODEL"));
  run_id = trim_space (env (codes "LEARTECH_RUN_ID"));
  session_id = trim_space (env (codes "LEARTECH_SESSION_ID"));
}

-- The configuration is loaded just if no variable of a provider is set to more than white space, the
-- URL and the key are set, and not both a run and a session are. It is then what the five variables
-- say, trimmed.
pub load_config-IsComplete :
    (env : Text → Text) (c : Config)
    → (load_config env ≡ ok c)
      ↔ (All (λ k. trim_space (env k) ≡ []) provider_names × (c ≡ from_env env) × IsComplete c)
unfolding load_config provider_env_set read_config env_url env_api_key env_model env_run_id
    env_session_id
load_config-IsComplete env c = (
  λ h.
      let (unset, checked) = (unless_found (provider_env_set env) (read_config env) c).0 h in
      let same = check_config-same (read_config env) c checked in
      (
        (set_names-unset env provider_names).0 unset,
        same,
        (check_config-IsComplete c).0 (ap check_config same ∙ checked),
      ),
  λ (unset, same, complete). (unless_found (provider_env_set env) (read_config env) c).1 (
    (set_names-unset env provider_names).1 unset,
    sym (ap check_config same) ∙ (check_config-IsComplete c).1 complete,
  ),
)
