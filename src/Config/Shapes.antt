-- ===== src/Config/Shapes.antt =====
-- The data transfer objects of libs/config_sdk/models.py. A value that is only passed on from the row of
-- a table is as it is in the row.
use yuviz.Base.{ℕ, Option, Text}
use yuviz.Workflow.Raw.{Json, Fields}

pub record Tenant : Type 0 where
  pub id : Text
  pub slug : Json
  pub name : Json
  pub region : Json
  pub vad_engine : Json
  pub vad_onset_ms : Json
  pub vad_hold_ms : Json
  pub vad_speech_threshold : Json
  pub no_speech_timeout_ms : Json
  pub stt_timeout_ms : Json
  pub llm_timeout_ms : Json
  pub transfer_timeout_ms : Json
  pub default_stt_config_id : Json
  pub default_llm_config_id : Json
  pub default_tts_config_id : Json
  pub config_version : Json
  pub updated_at : Option Text

pub record Agent : Type 0 where
  pub id : Text
  pub slug : Json
  pub tenant_id : Text
  pub name : Json
  pub greeting : Json
  pub system_prompt : Json
  pub goodbye_grace_ms : Json
  pub stt_config_id : Json
  pub llm_config_id : Json
  pub tts_config_id : Json
  pub status : Json
  pub config_version : Json
  pub updated_at : Option Text
  pub language : Json
  pub transfer_type : Json
  pub transfer_destination : Json
  pub queue_id : Json
  pub escalation_threshold : Json
  pub caller_id_policy : Json
  pub platform_did : Json
  pub custom_caller_id : Json
  pub transfer_waiting_experience : Json
  pub end_call_prompt : Json
  pub transfer_prompt : Json
  pub farewell_message : Json
  pub transfer_announcement : Json
  pub max_call_duration_s : Json
  pub workflow : Json
  pub workflow_draft : Json

pub record ProviderConfig : Type 0 where
  pub id : Text
  pub role : Json
  pub engine : Json
  pub model : Json
  pub voice : Json
  pub language : Json
  pub api_key_ref : Json
  pub extra : Fields
  pub updated_at : Option Text

pub record ProviderConfigs : Type 0 where
  pub stt : ProviderConfig
  pub llm : ProviderConfig
  pub tts : ProviderConfig

pub record ConversationInfo : Type 0 where
  pub greeting : Json
  pub system_prompt : Json
  pub end_call_prompt : Json
  pub transfer_prompt : Json
  pub farewell_message : Json
  pub transfer_announcement : Json
  pub workflow : Json
  pub workflow_draft : Json

pub record MediaInfo : Type 0 where
  pub voice : Json
  pub language : Json

pub record Policies : Type 0 where
  pub vad_engine : Json
  pub vad_onset_ms : Json
  pub vad_hold_ms : Json
  pub vad_speech_threshold : Json
  pub silence_timeout_ms : Json
  pub stt_timeout_ms : Json
  pub llm_timeout_ms : Json
  pub transfer_timeout_ms : ℕ
  pub goodbye_grace_ms : Json
  pub transfer_type : Json
  pub transfer_destination : Json
  pub queue_id : Json
  pub escalation_threshold : Json
  pub caller_id_policy : Json
  pub platform_did : Json
  pub custom_caller_id : Json
  pub transfer_waiting_experience : Json
  pub max_call_duration_s : Json

-- `RuntimeConfig`, but for the list of tools, which is empty, and the time that it is made
pub record RuntimeConfig : Type 0 where
  pub tenant : Tenant
  pub agent : Agent
  pub providers : ProviderConfigs
  pub conversation : ConversationInfo
  pub media : MediaInfo
  pub policies : Policies
  pub version : Json
