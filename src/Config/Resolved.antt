-- ===== src/Config/Resolved.antt =====
-- What `get_runtime_config` of libs/config_sdk/providers/cache_aside.py answers.
use yuviz.Base.{◌≤◌, Text, text_eq, ◌≡◌, ◌↔◌, codes}
use yuviz.Workflow.Raw.{string, Json, Fields}
use yuviz.Config.Shapes.{Tenant, Agent, ProviderConfig, RuntimeConfig}
use yuviz.Config.Rows.{
  Fetched, found, Host, tenant_from_dict, agent_from_dict, provider_config_from_dict,
}
use yuviz.Config.{
  transfer_timeout_min_ms, transfer_timeout_max_ms, validate_transfer_timeout_ms, Answer,
  Repository, timeout_value, assemble, fetch, or_else, get_tenant, get_agent, get_provider_config,
  get_runtime_config,
}
use yuviz.Config.Read.{bind_found, IsRead, get_runtime_config-IsRead, IsRead-get_runtime_config}
use yuviz.Config.Chosen.{timeout_in_bounds, Holds, Chosen, fetch_iff, Chosen-iff, active_iff}

module _ (host : Host) (redis : Repository (Fetched Fields)) (http : Repository Answer)
    (tenant_slug agent_slug : Text) where
  -- a provider's configuration, of the row that is held under its id
  abbrev pub IsProvider : Json → ProviderConfig → Type 0
  IsProvider id p =
      (row : Fields) × Holds row (redis.fetch_provider_config id) (http.fetch_provider_config id)
      × (provider_config_from_dict host row ≡ found p)

  -- A configuration in which everything is what the repositories hold.
  pub record IsResolved (c : RuntimeConfig) : Type 0 where
    pub agent_row : Fields
    pub tenant_row : Fields
    pub agent_held :
        Holds agent_row
          (redis.fetch_agent tenant_slug agent_slug)
          (http.fetch_agent tenant_slug agent_slug)
    pub tenant_held :
        Holds tenant_row (redis.fetch_tenant tenant_slug) (http.fetch_tenant tenant_slug)
    pub of_agent : agent_from_dict host agent_row ≡ found c.agent
    pub of_tenant : tenant_from_dict host tenant_row ≡ found c.tenant
    pub active : c.agent.status ≡ string (codes "active")
    pub stt_id : Json
    pub llm_id : Json
    pub tts_id : Json
    pub chosen_stt : Chosen c.agent.stt_config_id c.tenant.default_stt_config_id stt_id
    pub chosen_llm : Chosen c.agent.llm_config_id c.tenant.default_llm_config_id llm_id
    pub chosen_tts : Chosen c.agent.tts_config_id c.tenant.default_tts_config_id tts_id
    pub of_stt : IsProvider stt_id c.providers.stt
    pub of_llm : IsProvider llm_id c.providers.llm
    pub of_tts : IsProvider tts_id c.providers.tts
    pub in_time :
        validate_transfer_timeout_ms host.python (timeout_value c.tenant.transfer_timeout_ms)
        ≡ found c.policies.transfer_timeout_ms
    pub assembled : c ≡ record {
      tenant = c.tenant;
      agent = c.agent;
      providers = c.providers;
      conversation = record {
        greeting = c.agent.greeting;
        system_prompt = c.agent.system_prompt;
        end_call_prompt = c.agent.end_call_prompt;
        transfer_prompt = c.agent.transfer_prompt;
        farewell_message = c.agent.farewell_message;
        transfer_announcement = c.agent.transfer_announcement;
        workflow = c.agent.workflow;
        workflow_draft = c.agent.workflow_draft;
      };
      media = record {
        voice = c.providers.tts.voice;
        language =
            or_else (or_else c.agent.language c.providers.stt.language) c.providers.tts.language;
      };
      policies = record {
        vad_engine = c.tenant.vad_engine;
        vad_onset_ms = c.tenant.vad_onset_ms;
        vad_hold_ms = c.tenant.vad_hold_ms;
        vad_speech_threshold = c.tenant.vad_speech_threshold;
        silence_timeout_ms = c.tenant.no_speech_timeout_ms;
        stt_timeout_ms = c.tenant.stt_timeout_ms;
        llm_timeout_ms = c.tenant.llm_timeout_ms;
        transfer_timeout_ms = c.policies.transfer_timeout_ms;
        goodbye_grace_ms = c.agent.goodbye_grace_ms;
        transfer_type = c.agent.transfer_type;
        transfer_destination = c.agent.transfer_destination;
        queue_id = c.agent.queue_id;
        escalation_threshold = c.agent.escalation_threshold;
        caller_id_policy = c.agent.caller_id_policy;
        platform_did = c.agent.platform_did;
        custom_caller_id = c.agent.custom_caller_id;
        transfer_waiting_experience = c.agent.transfer_waiting_experience;
        max_call_duration_s = c.agent.max_call_duration_s;
      };
      version = c.agent.config_version;
    }

  IsProvider-iff :
      (id : Json) (p : ProviderConfig)
      → (get_provider_config host redis http id ≡ found p) ↔ IsProvider id p
  unfolding get_provider_config
  IsProvider-iff id p = (
    λ h.
        let (row, held, read) =
          bind_found (fetch (redis.fetch_provider_config id) (http.fetch_provider_config id))
            (provider_config_from_dict host) p h in
        (
          row,
          (fetch_iff (redis.fetch_provider_config id) (http.fetch_provider_config id) row).0 held,
          read,
        ),
    λ (row, held, read).
        rw
          (
            get_provider_config,
            (fetch_iff (redis.fetch_provider_config id) (http.fetch_provider_config id) row).1 held,
          )
          read,
  )

  agent_iff :
      (a : Agent)
      → (get_agent host redis http tenant_slug agent_slug ≡ found a) ↔ (
          (row : Fields) × Holds row
            (redis.fetch_agent tenant_slug agent_slug)
            (http.fetch_agent tenant_slug agent_slug)
          × (agent_from_dict host row ≡ found a))
  unfolding get_agent
  agent_iff a =
      let cached = redis.fetch_agent tenant_slug agent_slug in
      let asked = http.fetch_agent tenant_slug agent_slug in
      (
        λ h.
            let (row, held, read) = bind_found (fetch cached asked) (agent_from_dict host) a h in
            (row, (fetch_iff cached asked row).0 held, read),
        λ (row, held, read). rw (get_agent, (fetch_iff cached asked row).1 held) read,
      )

  tenant_iff :
      (t : Tenant)
      → (get_tenant host redis http tenant_slug ≡ found t) ↔ (
          (row : Fields) × Holds row
            (redis.fetch_tenant tenant_slug)
            (http.fetch_tenant tenant_slug)
          × (tenant_from_dict host row ≡ found t))
  unfolding get_tenant
  tenant_iff t =
      let cached = redis.fetch_tenant tenant_slug in
      let asked = http.fetch_tenant tenant_slug in
      (
        λ h.
            let (row, held, read) = bind_found (fetch cached asked) (tenant_from_dict host) t h in
            (row, (fetch_iff cached asked row).0 held, read),
        λ (row, held, read). rw (get_tenant, (fetch_iff cached asked row).1 held) read,
      )

  IsResolved-iff :
      (c : RuntimeConfig) → IsRead host redis http tenant_slug agent_slug c ↔ IsResolved c
  unfolding assemble
  IsResolved-iff c = (
    λ r.
        let (agent_row, agent_held, of_agent) = (agent_iff c.agent).0 r.of_agent in
        let (tenant_row, tenant_held, of_tenant) = (tenant_iff c.tenant).0 r.of_tenant in
        record {
          agent_row = agent_row;
          tenant_row = tenant_row;
          agent_held = agent_held;
          tenant_held = tenant_held;
          of_agent = of_agent;
          of_tenant = of_tenant;
          active = (active_iff c.agent.status).0 r.active;
          stt_id = r.stt_id;
          llm_id = r.llm_id;
          tts_id = r.tts_id;
          chosen_stt = (Chosen-iff _ _ r.stt_id).0 r.of_stt_id;
          chosen_llm = (Chosen-iff _ _ r.llm_id).0 r.of_llm_id;
          chosen_tts = (Chosen-iff _ _ r.tts_id).0 r.of_tts_id;
          of_stt = (IsProvider-iff r.stt_id c.providers.stt).0 r.of_stt;
          of_llm = (IsProvider-iff r.llm_id c.providers.llm).0 r.of_llm;
          of_tts = (IsProvider-iff r.tts_id c.providers.tts).0 r.of_tts;
          in_time = r.in_time;
          assembled = r.assembled;
        },
    λ r. record {
      of_agent = (agent_iff c.agent).1 (r.agent_row, r.agent_held, r.of_agent);
      active = (active_iff c.agent.status).1 r.active;
      of_tenant = (tenant_iff c.tenant).1 (r.tenant_row, r.tenant_held, r.of_tenant);
      stt_id = r.stt_id;
      llm_id = r.llm_id;
      tts_id = r.tts_id;
      of_stt_id = (Chosen-iff _ _ r.stt_id).1 r.chosen_stt;
      of_llm_id = (Chosen-iff _ _ r.llm_id).1 r.chosen_llm;
      of_tts_id = (Chosen-iff _ _ r.tts_id).1 r.chosen_tts;
      of_stt = (IsProvider-iff r.stt_id c.providers.stt).1 r.of_stt;
      of_llm = (IsProvider-iff r.llm_id c.providers.llm).1 r.of_llm;
      of_tts = (IsProvider-iff r.tts_id c.providers.tts).1 r.of_tts;
      in_time = r.in_time;
      assembled = r.assembled;
    },
  )

  -- A call is configured exactly if the cache, or where that has no row the service, holds rows of an
  -- agent, of its tenant and of three providers that can be read, the agent's status is "active", and the
  -- provider of each kind is the one under the agent's own id where it gives one, and else under the
  -- tenant's default, and the time-out of the transfer can be checked without an `OverflowError`. The configuration is put together from these, field by field.
  pub get_runtime_config_lem :
      (c : RuntimeConfig)
      → (get_runtime_config host redis http tenant_slug agent_slug ≡ found c) ↔ IsResolved c
  get_runtime_config_lem c = (
    λ h.
        (IsResolved-iff c).0 (get_runtime_config-IsRead host redis http tenant_slug agent_slug c h),
    λ r.
        IsRead-get_runtime_config host redis http tenant_slug agent_slug c ((IsResolved-iff c).1 r),
  )

  -- The time-out of a transfer in a call's configuration is between 10 and 120 seconds, whatever the
  -- tenant's row holds.
  pub transfer_timeout_bounded :
      (c : RuntimeConfig)
      → get_runtime_config host redis http tenant_slug agent_slug ≡ found c
      → (transfer_timeout_min_ms ≤ c.policies.transfer_timeout_ms)
        × (c.policies.transfer_timeout_ms ≤ transfer_timeout_max_ms)
  unfolding assemble
  transfer_timeout_bounded c h =
      let r = get_runtime_config-IsRead host redis http tenant_slug agent_slug c h in
      timeout_in_bounds host.python (timeout_value c.tenant.transfer_timeout_ms)
        c.policies.transfer_timeout_ms r.in_time
