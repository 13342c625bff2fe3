-- ===== src/Orchestrator/History.antt =====
-- The history of a conversation in services/conversation/tools/orchestrator.py, and what its helper
-- functions read of it. A message of a tool holds the dictionary that `json.dumps` writes.
use yuviz.Base.{
  ℕ, ◌+◌, ◌-◌, Bool, true, false, ◌||◌, String, string_eq, Option, none, some, List, [], ◌∷◌, ◌++◌,
  length, drop, Text, codes, text_eq, ◌==◌, if◌then◌else◌,
}
use yuviz.Base.Dict.{lookup, insert}
use yuviz.Workflow.Raw.{Json, null, boolean, whole, decimal, not_finite, string, array, object}
use yuviz.Tools.{
  Payload, ToolStatus, success, failed, timeout, cancelled, unavailable, invalid_argument,
  rate_limited, ToolResult,
}

pub data Role : Type 0 where
  system user assistant : Role

pub record ToolCallEvent : Type 0 where
  pub tool_call_id : String
  pub tool_name : String
  pub arguments : Payload
  pub provider_metadata : Option String

-- a message: of a role and with a content, the assistant's with a call of a tool, or a tool's with its
-- answer to the call with that id
pub data ChatMessage : Type 0 where
  said : Role → Text → ChatMessage
  called : ToolCallEvent → ChatMessage
  answered : String → Payload → ChatMessage

-- what a transition of services/conversation/workflow/runner.py does to a list of messages: the prompt of
-- the new step takes the place of the system message at its head, or goes there
unfoldable pub swap_system_message : Text → List ChatMessage → List ChatMessage
swap_system_message prompt [] = []
swap_system_message prompt (said system _ ∷ history) = said system prompt ∷ history
swap_system_message prompt (said user content ∷ history) =
    said system prompt ∷ said user content ∷ history
swap_system_message prompt (said assistant content ∷ history) =
    said system prompt ∷ said assistant content ∷ history
swap_system_message prompt (called event ∷ history) = said system prompt ∷ called event ∷ history
swap_system_message prompt (answered id payload ∷ history) =
    said system prompt ∷ answered id payload ∷ history

-- `status.value`
abbrev pub status_value : ToolStatus → Text
status_value success = codes "success"
status_value failed = codes "failed"
status_value timeout = codes "timeout"
status_value cancelled = codes "cancelled"
status_value unavailable = codes "unavailable"
status_value invalid_argument = codes "invalid_argument"
status_value rate_limited = codes "rate_limited"

-- `{**base, **payload}`
abbrev pub merged : Payload → Payload → Payload
merged base [] = base
merged base ((name, j) ∷ payload) = merged (insert name j base) payload

-- the dictionary that `_fold_tool_result_into_history` writes
unfoldable pub answer_payload : ToolResult → Payload
answer_payload r =
    let payload = merged (("status", string (status_value r.status)) ∷ []) r.payload in
    elim r.error [
      | none ↦ payload
      | some e ↦ if e == "" then payload else insert "error" (string (codes e)) payload
    ]

-- `_fold_tool_result_into_history`
unfoldable pub fold_tool_result : ToolCallEvent → ToolResult → List ChatMessage → List ChatMessage
unfolding answer_payload
fold_tool_result event r history =
    history ++ called event ∷ answered event.tool_call_id (answer_payload r) ∷ []

-- `payload.get("reason") in _REJECTION_REASONS`
abbrev pub is_reason : Option Json → Bool
is_reason (some (string t)) = (t == codes "date_not_confirmed") || (t == codes "time_not_confirmed")
is_reason (some null) = false
is_reason (some (boolean _)) = false
is_reason (some (whole _ _)) = false
is_reason (some (decimal _ _ _)) = false
is_reason (some (not_finite _)) = false
is_reason (some (array _)) = false
is_reason (some (object _)) = false
is_reason none = false

-- `_recent_rejection_count`
unfoldable pub recent_rejection_count : List ChatMessage → ℕ
recent_rejection_count [] = 0
recent_rejection_count (said role content ∷ history) = recent_rejection_count history
recent_rejection_count (called event ∷ history) = recent_rejection_count history
recent_rejection_count (answered id payload ∷ history) =
    (if is_reason (lookup "reason" payload) then 1 else 0) + recent_rejection_count history

-- `_all_user_messages`
unfoldable pub all_user_messages : List ChatMessage → List Text
all_user_messages [] = []
all_user_messages (said user content ∷ history) = content ∷ all_user_messages history
all_user_messages (said system content ∷ history) = all_user_messages history
all_user_messages (said assistant content ∷ history) = all_user_messages history
all_user_messages (called event ∷ history) = all_user_messages history
all_user_messages (answered id payload ∷ history) = all_user_messages history

-- whether the first of the messages is of the role "user"
abbrev pub user_next : List ChatMessage → Bool
user_next (said user content ∷ history) = true
user_next _ = false

-- `_time_confirmable_texts`
unfoldable pub time_confirmable_texts : List ChatMessage → List Text
time_confirmable_texts [] = []
time_confirmable_texts (said user content ∷ history) = content ∷ time_confirmable_texts history
time_confirmable_texts (said system content ∷ history) = time_confirmable_texts history
time_confirmable_texts (said assistant content ∷ history) =
    let rest = time_confirmable_texts history in if user_next history then content ∷ rest else rest
time_confirmable_texts (called event ∷ history) =
    let rest = time_confirmable_texts history in if user_next history then [] ∷ rest else rest
time_confirmable_texts (answered id payload ∷ history) = time_confirmable_texts history

-- `" ".join(texts)`
abbrev pub join_words : List Text → Text
join_words [] = []
join_words (t ∷ []) = t
join_words (t ∷ u ∷ texts) = t ++ b' ' ∷ join_words (u ∷ texts)

-- `_recent_user_text`
unfoldable pub recent_user_text : List ChatMessage → ℕ → Text
unfolding all_user_messages
recent_user_text history n =
    let texts = all_user_messages history in join_words (drop (length texts - n) texts)
