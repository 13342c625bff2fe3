-- ===== src/Config.antt =====
-- libs/config_sdk/providers/cache_aside.py: the configuration of a call, from a cache of rows (Redis) and
-- behind it the configuration service. The rows that the two repositories hold are functions.
pub mod Shapes
pub mod Rows
pub mod Read
pub mod Chosen
pub mod Resolved
use yuviz.Base.{
  ℕ, Bool, true, false, not, ◌&&◌, Option, none, some, List, [], leb, Text, codes, text_eq, ◌==◌,
  if◌then◌else◌,
}
use yuviz.Workflow.Raw.{
  Json, null, boolean, whole, decimal, not_finite, string, array, object, Fields, Python, is_truthy,
  Conversion, converted, refused, overflowed, int_of_not_finite, int_of_text,
}
use yuviz.Config.Shapes.{
  Tenant, Agent, ProviderConfig, ProviderConfigs, ConversationInfo, MediaInfo, Policies,
  RuntimeConfig,
}
use yuviz.Config.Rows.{
  Fetched, found, absent, raised, ◌>>=◌, ◌>>◌, require, Host, tenant_from_dict, agent_from_dict,
  provider_config_from_dict,
}

-- `TRANSFER_TIMEOUT_MIN_MS`, `TRANSFER_TIMEOUT_DEFAULT_MS` and `TRANSFER_TIMEOUT_MAX_MS`
abbrev pub transfer_timeout_min_ms : ℕ
transfer_timeout_min_ms = 10000

abbrev pub transfer_timeout_default_ms : ℕ
transfer_timeout_default_ms = 45000

abbrev pub transfer_timeout_max_ms : ℕ
transfer_timeout_max_ms = 120000

-- `int(value)`
abbrev pub int_of_value : Python → Json → Conversion
int_of_value python null = refused
int_of_value python (boolean b) = converted false (if b then 1 else 0)
int_of_value python (whole negative n) = converted negative n
int_of_value python (decimal _ negative n) = converted negative n
int_of_value python (not_finite x) = int_of_not_finite x
int_of_value python (string t) = int_of_text python t
int_of_value python (array _) = refused
int_of_value python (object _) = refused

-- `validate_transfer_timeout_ms`; an `OverflowError` is not caught
unfoldable pub validate_transfer_timeout_ms : Python → Json → Fetched ℕ
validate_transfer_timeout_ms python value = elim (int_of_value python value) [
  | overflowed ↦ raised
  | refused ↦ found transfer_timeout_default_ms
  | converted negative ms ↦ found (
      if not negative && leb transfer_timeout_min_ms ms && leb ms transfer_timeout_max_ms
      then ms
      else transfer_timeout_default_ms)
]

-- a row of the service: there or not, a `RepositoryUnavailableError`, or another exception
pub data Answer : Type 0 where
  answered : Fetched Fields → Answer
  unavailable : Answer

-- a repository's `fetch_tenant`, `fetch_agent` and `fetch_provider_config`
pub record Repository (R : Type 0) : Type 0 where
  pub fetch_tenant : Text → R
  pub fetch_agent : Text → Text → R
  pub fetch_provider_config : Json → R

-- `_fetch`
unfoldable pub fetch : Fetched Fields → Answer → Fetched Fields
fetch (found row) http = found row
fetch raised http = raised
fetch absent unavailable = absent
fetch absent (answered row) = row

-- `getattr(agent, ...) or getattr(tenant, ...)`
abbrev pub either_id : Json → Json → Fetched Json
either_id own default =
    let chosen = if is_truthy own then own else default in
    elim chosen [
      | null ↦ absent
      | boolean b ↦ found (boolean b)
      | whole negative n ↦ found (whole negative n)
      | decimal is_zero negative n ↦ found (decimal is_zero negative n)
      | not_finite x ↦ found (not_finite x)
      | string t ↦ found (string t)
      | array items ↦ found (array items)
      | object fields ↦ found (object fields)
    ]

-- `agent.status == "active"`
abbrev pub is_active : Json → Bool
is_active (string t) = t == codes "active"
is_active _ = false

-- `a or b`
abbrev pub or_else : Json → Json → Json
or_else a b = if is_truthy a then a else b

-- `tenant.transfer_timeout_ms`, or the default for `None`
abbrev pub timeout_value : Json → Json
timeout_value null = whole false transfer_timeout_default_ms
timeout_value j = j

-- the construction of the `RuntimeConfig`, with the time-out that `validate_transfer_timeout_ms` returned
unfoldable pub assemble : ℕ → Tenant → Agent → ProviderConfigs → RuntimeConfig
assemble transfer_timeout tenant agent providers = record {
  tenant = tenant;
  agent = agent;
  providers = providers;
  conversation = record {
    greeting = agent.greeting;
    system_prompt = agent.system_prompt;
    end_call_prompt = agent.end_call_prompt;
    transfer_prompt = agent.transfer_prompt;
    farewell_message = agent.farewell_message;
    transfer_announcement = agent.transfer_announcement;
    workflow = agent.workflow;
    workflow_draft = agent.workflow_draft;
  };
  media = record {
    voice = providers.tts.voice;
    language = or_else (or_else agent.language providers.stt.language) providers.tts.language;
  };
  policies = record {
    vad_engine = tenant.vad_engine;
    vad_onset_ms = tenant.vad_onset_ms;
    vad_hold_ms = tenant.vad_hold_ms;
    vad_speech_threshold = tenant.vad_speech_threshold;
    silence_timeout_ms = tenant.no_speech_timeout_ms;
    stt_timeout_ms = tenant.stt_timeout_ms;
    llm_timeout_ms = tenant.llm_timeout_ms;
    transfer_timeout_ms = transfer_timeout;
    goodbye_grace_ms = agent.goodbye_grace_ms;
    transfer_type = agent.transfer_type;
    transfer_destination = agent.transfer_destination;
    queue_id = agent.queue_id;
    escalation_threshold = agent.escalation_threshold;
    caller_id_policy = agent.caller_id_policy;
    platform_did = agent.platform_did;
    custom_caller_id = agent.custom_caller_id;
    transfer_waiting_experience = agent.transfer_waiting_experience;
    max_call_duration_s = agent.max_call_duration_s;
  };
  version = agent.config_version;
}

module _ (host : Host) (redis : Repository (Fetched Fields)) (http : Repository Answer) where
  -- `get_tenant`
  unfoldable pub get_tenant : Text → Fetched Tenant
  unfolding fetch
  get_tenant slug = do
    row ← fetch (redis.fetch_tenant slug) (http.fetch_tenant slug)
    tenant_from_dict host row

  -- `get_agent`
  unfoldable pub get_agent : Text → Text → Fetched Agent
  unfolding fetch
  get_agent tenant_slug agent_slug = do
    row ← fetch (redis.fetch_agent tenant_slug agent_slug) (http.fetch_agent tenant_slug agent_slug)
    agent_from_dict host row

  -- `get_provider_config`
  unfoldable pub get_provider_config : Json → Fetched ProviderConfig
  unfolding fetch
  get_provider_config provider_id = do
    row ← fetch (redis.fetch_provider_config provider_id) (http.fetch_provider_config provider_id)
    provider_config_from_dict host row

  -- the second half of `get_runtime_config`: the providers of an agent and its tenant
  unfoldable pub get_providers : Agent → Tenant → Fetched ProviderConfigs
  get_providers agent tenant = do
    stt_id ← either_id agent.stt_config_id tenant.default_stt_config_id
    llm_id ← either_id agent.llm_config_id tenant.default_llm_config_id
    tts_id ← either_id agent.tts_config_id tenant.default_tts_config_id
    stt ← get_provider_config stt_id
    llm ← get_provider_config llm_id
    tts ← get_provider_config tts_id
    found (record { stt = stt; llm = llm; tts = tts })

  -- `get_runtime_config`
  unfoldable pub get_runtime_config : Text → Text → Fetched RuntimeConfig
  get_runtime_config tenant_slug agent_slug = do
    agent ← get_agent tenant_slug agent_slug
    require (is_active agent.status)
    tenant ← get_tenant tenant_slug
    providers ← get_providers agent tenant
    ms ← validate_transfer_timeout_ms host.python (timeout_value tenant.transfer_timeout_ms)
    found (assemble ms tenant agent providers)
