-- ===== src/Examples/Configs.antt =====
-- The configuration of a call at a small input.
use yuviz.Base.{◌≤◌, ◌↔◌, false, none, [], Text, codes, ◌≡◌, refl}
use yuviz.Workflow.Raw.{Json, null, whole, string, Fields, no_fields, field, get}
use yuviz.Config.Shapes.{Tenant, Agent, ProviderConfig, RuntimeConfig}
use yuviz.Config.Rows.{
  Fetched, found, absent, Host, tenant_from_dict, agent_from_dict, provider_config_from_dict,
}
use yuviz.Config.{
  validate_transfer_timeout_ms, Answer, answered, unavailable, Repository, fetch, assemble,
  get_tenant, get_agent, get_provider_config, get_providers, get_runtime_config,
}
use yuviz.Config.Resolved.{IsResolved, get_runtime_config_lem, transfer_timeout_bounded}

abbrev named : Text → Json → Fields → Fields
named name j row = field name j row

-- the rows of a tenant, with a time-out that is too short, an agent and a provider
abbrev tenant_row : Fields
tenant_row = named (codes "id") (string (codes "1")) (
    named (codes "slug") (string (codes "acme")) (
      named (codes "name") (string (codes "Acme")) (
        named (codes "transfer_timeout_ms") (whole false 5) (
          named (codes "default_stt_config_id") (string (codes "s")) (
            named (codes "default_llm_config_id") (string (codes "l"))
              (named (codes "default_tts_config_id") (string (codes "t")) no_fields))))))

abbrev agent_row : Fields
agent_row = named (codes "id") (string (codes "1")) (
    named (codes "slug") (string (codes "front")) (
      named (codes "tenant_id") (string (codes "1")) (
        named (codes "name") (string (codes "Front"))
          (named (codes "stt_config_id") (string (codes "own")) no_fields))))

abbrev provider_row : Fields
provider_row = named (codes "id") (string (codes "1")) (
    named (codes "role") (string (codes "stt"))
      (named (codes "engine") (string (codes "whisper")) no_fields))

abbrev host : Host
host = record {
  python = record { shown = λ j. []; int_of = λ t. none };
  loads = λ t. none;
  fromisoformat = λ t. none;
}

-- the cache has the agent only
abbrev redis : Repository (Fetched Fields)
redis = record {
  fetch_tenant = λ t. absent;
  fetch_agent = λ t a. found agent_row;
  fetch_provider_config = λ id. absent;
}

abbrev http : Repository Answer
http = record {
  fetch_tenant = λ t. answered (found tenant_row);
  fetch_agent = λ t a. unavailable;
  fetch_provider_config = λ id. answered (found provider_row);
}

abbrev tenant : Tenant
tenant = record {
  id = codes "1";
  slug = string (codes "acme");
  name = string (codes "Acme");
  region = string (codes "us");
  vad_engine = null;
  vad_onset_ms = null;
  vad_hold_ms = null;
  vad_speech_threshold = null;
  no_speech_timeout_ms = null;
  stt_timeout_ms = null;
  llm_timeout_ms = null;
  transfer_timeout_ms = whole false 5;
  default_stt_config_id = string (codes "s");
  default_llm_config_id = string (codes "l");
  default_tts_config_id = string (codes "t");
  config_version = whole false 0;
  updated_at = none;
}

abbrev agent : Agent
agent = record {
  id = codes "1";
  slug = string (codes "front");
  tenant_id = codes "1";
  name = string (codes "Front");
  greeting = string [];
  system_prompt = string [];
  goodbye_grace_ms = whole false 3000;
  stt_config_id = string (codes "own");
  llm_config_id = null;
  tts_config_id = null;
  status = string (codes "active");
  config_version = whole false 0;
  updated_at = none;
  language = null;
  transfer_type = string (codes "none");
  transfer_destination = null;
  queue_id = null;
  escalation_threshold = null;
  caller_id_policy = string (codes "original");
  platform_did = null;
  custom_caller_id = null;
  transfer_waiting_experience = string (codes "announcement_moh");
  end_call_prompt = null;
  transfer_prompt = null;
  farewell_message = null;
  transfer_announcement = null;
  max_call_duration_s = null;
  workflow = null;
  workflow_draft = null;
}

abbrev provider : ProviderConfig
provider = record {
  id = codes "1";
  role = string (codes "stt");
  engine = string (codes "whisper");
  model = null;
  voice = null;
  language = null;
  api_key_ref = null;
  extra = no_fields;
  updated_at = none;
}

abbrev config : RuntimeConfig
unfolding assemble
config = assemble 45000 tenant agent (record { stt = provider; llm = provider; tts = provider })

get_runtime_config_lem_example :
    (get_runtime_config host redis http (codes "acme") (codes "front") ≡ found config)
    ↔ IsResolved host redis http (codes "acme") (codes "front") config
get_runtime_config_lem_example =
    get_runtime_config_lem host redis http (codes "acme") (codes "front") config

is_configured : get_runtime_config host redis http (codes "acme") (codes "front") ≡ found config
unfolding get_runtime_config get_agent get_tenant get_providers get_provider_config fetch
    agent_from_dict tenant_from_dict provider_config_from_dict get validate_transfer_timeout_ms
    assemble
is_configured = refl

transfer_timeout_bounded_example :
    (10000 ≤ config.policies.transfer_timeout_ms) × (config.policies.transfer_timeout_ms ≤ 120000)
transfer_timeout_bounded_example =
    transfer_timeout_bounded host redis http (codes "acme") (codes "front") config is_configured
