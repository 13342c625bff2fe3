-- ===== src/Config/Rows.antt =====
-- The rows of tables that libs/config_sdk/providers/cache_aside.py reads.
use yuviz.Base.{Bool, false, Option, none, some, [], Text, codes, text_eq, ◌==◌, if◌then◌else◌}
use yuviz.Workflow.Raw.{
  Json, null, boolean, whole, decimal, not_finite, string, array, object, Fields, no_fields, field,
  Python, str_of, get,
}
use yuviz.Config.Shapes.{Tenant, Agent, ProviderConfig}

-- What a look-up gives: a value, the `None` of a caller's early return, or an exception.
pub data Fetched (A : Type 0) : Type 0 where
  found : A → Fetched A
  absent raised : Fetched A

infixl 5 ◌>>=◌ ◌>>◌
abbrev pub ◌>>=◌ : {A B : Type 0} → Fetched A → (A → Fetched B) → Fetched B
found a >>= f = f a
absent >>= f = absent
raised >>= f = raised

abbrev pub ◌>>◌ : {A B : Type 0} → Fetched A → Fetched B → Fetched B
a >> b = a >>= λ _. b

-- `if not test: return None`
abbrev pub require : Bool → Fetched (Unit {0})
require test = if test then found tt else absent

-- `json.loads` and `datetime.fromisoformat`, with `none` for an exception, and Python's `str` and `int`
pub record Host : Type 0 where
  pub python : Python
  pub loads : Text → Option Json
  pub fromisoformat : Text → Option Text

-- `value`, or the exception of an expression
abbrev pub or_raised : {A : Type 0} → Option A → Fetched A
or_raised none = raised
or_raised (some a) = found a

-- `row[key]`
abbrev pub item_of : Text → Fields → Fetched Json
item_of key no_fields = raised
item_of key (field k v row) = let rest = item_of key row in if k == key then found v else rest

-- `row.get(key, default)`
abbrev pub get_default : Text → Json → Fields → Json
get_default key default no_fields = default
get_default key default (field k v row) =
    let rest = get_default key default row in if k == key then v else rest

abbrev zero_version : Json
zero_version = whole false 0

module _ (host : Host) where
  -- `_parse_dt`
  abbrev pub parse_dt : Json → Fetched (Option Text)
  parse_dt null = found none
  parse_dt (string t) = or_raised (host.fromisoformat t) >>= λ d. found (some d)
  parse_dt (boolean _) = raised
  parse_dt (whole _ _) = raised
  parse_dt (decimal _ _ _) = raised
  parse_dt (not_finite _) = raised
  parse_dt (array _) = raised
  parse_dt (object _) = raised

  -- `_parse_json`
  abbrev pub parse_json : Json → Fetched Json
  parse_json (string t) = or_raised (host.loads t)
  parse_json j = found j

  -- `_parse_extra`
  abbrev pub parse_extra : Json → Fetched Fields
  parse_extra j = do
    parsed ← parse_json j
    found (elim parsed [
      | object fields ↦ fields
      | null ↦ no_fields
      | boolean _ ↦ no_fields
      | whole _ _ ↦ no_fields
      | decimal _ _ _ ↦ no_fields
      | not_finite _ ↦ no_fields
      | string _ ↦ no_fields
      | array _ ↦ no_fields
    ])

  -- `_tenant_from_dict`
  unfoldable pub tenant_from_dict : Fields → Fetched Tenant
  unfolding get
  tenant_from_dict row = do
    id ← item_of (codes "id") row
    slug ← item_of (codes "slug") row
    name ← item_of (codes "name") row
    updated_at ← parse_dt (get (codes "updated_at") row)
    found (record {
      id = str_of host.python id;
      slug = slug;
      name = name;
      region = get_default (codes "region") (string (codes "us")) row;
      vad_engine = get (codes "vad_engine") row;
      vad_onset_ms = get (codes "vad_onset_ms") row;
      vad_hold_ms = get (codes "vad_hold_ms") row;
      vad_speech_threshold = get (codes "vad_speech_threshold") row;
      no_speech_timeout_ms = get (codes "no_speech_timeout_ms") row;
      stt_timeout_ms = get (codes "stt_timeout_ms") row;
      llm_timeout_ms = get (codes "llm_timeout_ms") row;
      transfer_timeout_ms = get (codes "transfer_timeout_ms") row;
      default_stt_config_id = get (codes "default_stt_config_id") row;
      default_llm_config_id = get (codes "default_llm_config_id") row;
      default_tts_config_id = get (codes "default_tts_config_id") row;
      config_version = get_default (codes "config_version") zero_version row;
      updated_at = updated_at;
    })

  -- `_agent_from_dict`
  unfoldable pub agent_from_dict : Fields → Fetched Agent
  unfolding get
  agent_from_dict row = do
    id ← item_of (codes "id") row
    slug ← item_of (codes "slug") row
    tenant_id ← item_of (codes "tenant_id") row
    name ← item_of (codes "name") row
    updated_at ← parse_dt (get (codes "updated_at") row)
    workflow ← parse_json (get (codes "workflow") row)
    workflow_draft ← parse_json (get (codes "workflow_draft") row)
    found (record {
      id = str_of host.python id;
      slug = slug;
      tenant_id = str_of host.python tenant_id;
      name = name;
      greeting = get_default (codes "greeting") (string []) row;
      system_prompt = get_default (codes "system_prompt") (string []) row;
      goodbye_grace_ms = get_default (codes "goodbye_grace_ms") (whole false 3000) row;
      stt_config_id = get (codes "stt_config_id") row;
      llm_config_id = get (codes "llm_config_id") row;
      tts_config_id = get (codes "tts_config_id") row;
      status = get_default (codes "status") (string (codes "active")) row;
      config_version = get_default (codes "config_version") zero_version row;
      updated_at = updated_at;
      language = get (codes "language") row;
      transfer_type = get_default (codes "transfer_type") (string (codes "none")) row;
      transfer_destination = get (codes "transfer_destination") row;
      queue_id = get (codes "queue_id") row;
      escalation_threshold = get (codes "escalation_threshold") row;
      caller_id_policy = get_default (codes "caller_id_policy") (string (codes "original")) row;
      platform_did = get (codes "platform_did") row;
      custom_caller_id = get (codes "custom_caller_id") row;
      transfer_waiting_experience =
          get_default (codes "transfer_waiting_experience") (string (codes "announcement_moh")) row;
      end_call_prompt = get (codes "end_call_prompt") row;
      transfer_prompt = get (codes "transfer_prompt") row;
      farewell_message = get (codes "farewell_message") row;
      transfer_announcement = get (codes "transfer_announcement") row;
      max_call_duration_s = get (codes "max_call_duration_s") row;
      workflow = workflow;
      workflow_draft = workflow_draft;
    })

  -- `_provider_config_from_dict`
  unfoldable pub provider_config_from_dict : Fields → Fetched ProviderConfig
  unfolding get
  provider_config_from_dict row = do
    id ← item_of (codes "id") row
    role ← item_of (codes "role") row
    engine ← item_of (codes "engine") row
    extra ← parse_extra (get (codes "extra") row)
    updated_at ← parse_dt (get (codes "updated_at") row)
    found (record {
      id = str_of host.python id;
      role = role;
      engine = engine;
      model = get (codes "model") row;
      voice = get (codes "voice") row;
      language = get (codes "language") row;
      api_key_ref = get (codes "api_key_ref") row;
      extra = extra;
      updated_at = updated_at;
    })
