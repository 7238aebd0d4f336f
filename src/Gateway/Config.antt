-- ===== src/Gateway/Config.antt =====
-- pkg/aigateway/config.go: the configuration read from the environment. An error is a constructor with
-- the names that its text has.
pub mod Refusals
use leartech_go_common.Base.{
  Bool, true, false, ◌&&◌, not, Option, none, some, List, [], ◌∷◌, Text, codes, is_empty,
  if◌then◌else◌,
}
use leartech_go_common.Base.Results.{Result, ok, err}
use leartech_go_common.Base.Trim.{trim_space}

-- `URL`, `APIKey`, `Model`, `RunID` and `SessionID`.
pub record Config : Type 0 where
  pub url : Text
  pub api_key : Text
  pub model : Text
  pub run_id : Text
  pub session_id : Text

-- `provider_env_set` wraps `ErrProviderEnv`, and the two after it `ErrNoCredential`.
pub data ConfigError : Type 0 where
  provider_env : List Text → ConfigError
  no_url no_key run_and_session : ConfigError

unfoldable pub env_url : Text
unfolding codes
env_url = codes "LEARTECH_AIGW_URL"

unfoldable pub env_api_key : Text
unfolding codes
env_api_key = codes "LEARTECH_AIGW_API_KEY"

unfoldable pub env_model : Text
unfolding codes
env_model = codes "LEARTECH_AIGW_MODEL"

unfoldable pub env_run_id : Text
unfolding codes
env_run_id = codes "LEARTECH_RUN_ID"

unfoldable pub env_session_id : Text
unfolding codes
env_session_id = codes "LEARTECH_SESSION_ID"

-- `providerEnv`, in the order that `sort.Strings` gives it.
unfoldable pub provider_names : List Text
unfolding codes
provider_names =
    codes "ANTHROPIC_API_KEY"
    ∷ codes "ANTHROPIC_AUTH_TOKEN"
    ∷ codes "ANTHROPIC_BASE_URL"
    ∷ codes "AZURE_OPENAI_API_KEY"
    ∷ codes "AZURE_OPENAI_ENDPOINT"
    ∷ codes "DEEPSEEK_API_KEY"
    ∷ codes "MISTRAL_API_KEY"
    ∷ codes "OLLAMA_HOST"
    ∷ codes "OPENAI_API_BASE"
    ∷ codes "OPENAI_API_KEY"
    ∷ codes "OPENAI_BASE_URL"
    ∷ []

-- The names that are set, of a list.
unfoldable pub set_names : (Text → Text) → List Text → List Text
unfolding trim_space
set_names env [] = []
set_names env (k ∷ ks) =
    let rest = set_names env ks in if is_empty (trim_space (env k)) then rest else k ∷ rest

unfoldable pub provider_env_set : (Text → Text) → List Text
unfolding set_names provider_names
provider_env_set env = set_names env provider_names

unfoldable pub read_config : (Text → Text) → Config
unfolding trim_space env_url env_api_key env_model env_run_id env_session_id
read_config env = record {
  url = trim_space (env env_url);
  api_key = trim_space (env env_api_key);
  model = trim_space (env env_model);
  run_id = trim_space (env env_run_id);
  session_id = trim_space (env env_session_id);
}

-- The checks of a configuration that was read.
unfoldable pub check_config : Config → Result ConfigError Config
check_config c =
    if is_empty c.url
    then err no_url
    else if is_empty c.api_key
    then err no_key
    else if not (is_empty c.run_id) && not (is_empty c.session_id)
    then err run_and_session
    else ok c

unfoldable pub load_config : (Text → Text) → Result ConfigError Config
unfolding provider_env_set read_config check_config
load_config env =
    if not (is_empty (provider_env_set env))
    then err (provider_env (provider_env_set env))
    else check_config (read_config env)

-- The kinds of a correlation.
unfoldable pub correlate_run : Text
unfolding codes
correlate_run = codes "run"

unfoldable pub correlate_session : Text
unfolding codes
correlate_session = codes "session"

-- `Config.Client`: the value and the kind that the client correlates by.
unfoldable pub correlation : Config → Option (Text × Text)
unfolding correlate_run correlate_session
correlation c =
    if not (is_empty c.run_id)
    then some (c.run_id, correlate_run)
    else if not (is_empty c.session_id)
    then some (c.session_id, correlate_session)
    else none
