-- ===== src/Config/Read.antt =====
-- How `get_runtime_config` of libs/config_sdk/providers/cache_aside.py answers, step by step.
use yuviz.Base.{Bool, true, false, Text, text_eq, ◌≡◌, ◌≢◌, subst, refl, sym, ap, ◌∙◌}
use yuviz.Workflow.Raw.{Json, Fields}
use yuviz.Config.Shapes.{ProviderConfigs, RuntimeConfig}
use yuviz.Config.Rows.{Fetched, found, absent, raised, ◌>>=◌, require, Host}
use yuviz.Config.{
  Answer, Repository, either_id, is_active, timeout_value, validate_transfer_timeout_ms, assemble,
  get_tenant, get_agent, get_provider_config, get_providers, get_runtime_config,
}

not_absent : {B : Type 0} (b : B) → absent ≢ found b
not_absent b = λ h. cc

not_raised : {B : Type 0} (b : B) → raised ≢ found b
not_raised b = λ h. cc

pub found_is : {B : Type 0} (a b : B) → found a ≡ found b → a ≡ b
found_is a b h = cc

-- what went well in a chain went well in each part
pub bind_found :
    {A B : Type 0} (a : Fetched A) (f : A → Fetched B) (b : B)
    → (a >>= f) ≡ found b
    → (x : A) × (a ≡ found x) × (f x ≡ found b)
bind_found (found x) f b h = (x, refl, h)
bind_found absent f b h = absurd (not_absent b h)
bind_found raised f b h = absurd (not_raised b h)

require_found : (test : Bool) (u : Unit {0}) → require test ≡ found u → test ≡ true
require_found true u h = refl
require_found false u h = absurd (not_absent u h)

module _ (host : Host) (redis : Repository (Fetched Fields)) (http : Repository Answer)
    (tenant_slug agent_slug : Text) where
  -- what each step of the code gave
  pub record IsRead (c : RuntimeConfig) : Type 0 where
    pub of_agent : get_agent host redis http tenant_slug agent_slug ≡ found c.agent
    pub active : is_active c.agent.status ≡ true
    pub of_tenant : get_tenant host redis http tenant_slug ≡ found c.tenant
    pub stt_id : Json
    pub llm_id : Json
    pub tts_id : Json
    pub of_stt_id : either_id c.agent.stt_config_id c.tenant.default_stt_config_id ≡ found stt_id
    pub of_llm_id : either_id c.agent.llm_config_id c.tenant.default_llm_config_id ≡ found llm_id
    pub of_tts_id : either_id c.agent.tts_config_id c.tenant.default_tts_config_id ≡ found tts_id
    pub of_stt : get_provider_config host redis http stt_id ≡ found c.providers.stt
    pub of_llm : get_provider_config host redis http llm_id ≡ found c.providers.llm
    pub of_tts : get_provider_config host redis http tts_id ≡ found c.providers.tts
    pub in_time :
        validate_transfer_timeout_ms host.python (timeout_value c.tenant.transfer_timeout_ms)
        ≡ found c.policies.transfer_timeout_ms
    pub assembled : c ≡ assemble c.policies.transfer_timeout_ms c.tenant c.agent c.providers

  pub get_runtime_config-IsRead :
      (c : RuntimeConfig)
      → get_runtime_config host redis http tenant_slug agent_slug ≡ found c
      → IsRead c
  unfolding get_runtime_config get_providers assemble
  get_runtime_config-IsRead c h =
      let (agent, of_agent, h1) =
        bind_found (get_agent host redis http tenant_slug agent_slug) _ c h in
      let (u, active, h2) = bind_found (require (is_active agent.status)) _ c h1 in
      let (tenant, of_tenant, h3) = bind_found (get_tenant host redis http tenant_slug) _ c h2 in
      let (providers, of_providers, h4) =
        bind_found (get_providers host redis http agent tenant) _ c h3 in
      let (stt_id, of_stt_id, g1) =
        bind_found (either_id agent.stt_config_id tenant.default_stt_config_id) _ providers
          of_providers in
      let (llm_id, of_llm_id, g2) =
        bind_found (either_id agent.llm_config_id tenant.default_llm_config_id) _ providers g1 in
      let (tts_id, of_tts_id, g3) =
        bind_found (either_id agent.tts_config_id tenant.default_tts_config_id) _ providers g2 in
      let (stt, of_stt, g4) =
        bind_found (get_provider_config host redis http stt_id) _ providers g3 in
      let (llm, of_llm, g5) =
        bind_found (get_provider_config host redis http llm_id) _ providers g4 in
      let (tts, of_tts, g6) =
        bind_found (get_provider_config host redis http tts_id) _ providers g5 in
      let three : ProviderConfigs = record { stt = stt; llm = llm; tts = tts } in
      let (ms, in_time, h5) =
        bind_found
          (validate_transfer_timeout_ms host.python (timeout_value tenant.transfer_timeout_ms)) _ c
          h4 in
      let same : assemble ms tenant agent three ≡ c =
        ap (assemble ms tenant agent) (found_is three providers g6)
        ∙ found_is (assemble ms tenant agent providers) c h5 in
      subst IsRead same (record {
        of_agent = of_agent;
        active = require_found (is_active agent.status) u active;
        of_tenant = of_tenant;
        stt_id = stt_id;
        llm_id = llm_id;
        tts_id = tts_id;
        of_stt_id = of_stt_id;
        of_llm_id = of_llm_id;
        of_tts_id = of_tts_id;
        of_stt = of_stt;
        of_llm = of_llm;
        of_tts = of_tts;
        in_time = in_time;
        assembled = refl;
      })

  pub IsRead-get_runtime_config :
      (c : RuntimeConfig)
      → IsRead c
      → get_runtime_config host redis http tenant_slug agent_slug ≡ found c
  unfolding get_runtime_config get_providers
  IsRead-get_runtime_config c r =
      rw
        (
          get_runtime_config, r.of_agent, r.active, r.of_tenant, get_providers, r.of_stt_id,
          r.of_llm_id, r.of_tts_id, r.of_stt, r.of_llm, r.of_tts, r.in_time,
        )
        (ap found (sym r.assembled))
