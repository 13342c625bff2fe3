-- ===== src/Orchestrator/Answered.antt =====
-- The history after a turn of services/conversation/tools/orchestrator.py.
use yuviz.Base.{List, [], ◌∷◌, ◌++◌, Text, All, ◌≡◌, refl}
use yuviz.Tools.{Payload}
use yuviz.Orchestrator.History.{
  system, user, assistant, ChatMessage, said, called, answered, swap_system_message,
}
use yuviz.Orchestrator.Shapes.{LocalTool, ToolCallOrchestrator, Turn}

-- Each message is a call of a tool, and the answer to it comes next.
abbrev pub IsAnswered : List ChatMessage → Type 0
IsAnswered [] = Unit
IsAnswered (called event ∷ answered id payload ∷ history) =
    (event.tool_call_id ≡ id) × IsAnswered history
IsAnswered (called event ∷ []) = ⊥
IsAnswered (called event ∷ said role content ∷ history) = ⊥
IsAnswered (called event ∷ called other ∷ history) = ⊥
IsAnswered (said role content ∷ history) = ⊥
IsAnswered (answered id payload ∷ history) = ⊥

-- the messages behind the system message, if there is one at the head
abbrev pub body : List ChatMessage → List ChatMessage
body [] = []
body (said system _ ∷ history) = history
body (said user content ∷ history) = said user content ∷ history
body (said assistant content ∷ history) = said assistant content ∷ history
body (called event ∷ history) = called event ∷ history
body (answered id payload ∷ history) = answered id payload ∷ history

-- Behind the system message, a history is extended by calls and their answers.
abbrev pub Extends : List ChatMessage → List ChatMessage → Type 0
Extends before after =
    (more : List ChatMessage) × (body after ≡ body before ++ more) × IsAnswered more

-- A transition of the workflow touches no message but the system message.
pub body-swap_system_message :
    (prompt : Text) (history : List ChatMessage)
    → body (swap_system_message prompt history) ≡ body history
unfolding swap_system_message
body-swap_system_message prompt [] = refl
body-swap_system_message prompt (said system content ∷ history) = refl
body-swap_system_message prompt (said user content ∷ history) = refl
body-swap_system_message prompt (said assistant content ∷ history) = refl
body-swap_system_message prompt (called event ∷ history) = refl
body-swap_system_message prompt (answered id payload ∷ history) = refl

module _ {W : Type 0} where
  -- a tool that touches no message but the system message, also when it is cut short
  pub record KeepsBody (tool : LocalTool W) : Type 0 where
    pub done :
        (arguments : Payload) (w : W) (history : List ChatMessage)
        → body (tool.handler arguments w history).1 ≡ body history
    pub stopped :
        (arguments : Payload) (w : W) (history : List ChatMessage)
        → body (tool.cut_short arguments w history).1 ≡ body history

module _ {W : Type 0} (o : ToolCallOrchestrator W) (before : List ChatMessage) where
  abbrev TurnExtends : Turn W → Type 0
  TurnExtends t = All (λ e. KeepsBody e.1) t.offered_local × Extends before t.history

  abbrev TouchNothing : Type 0
  TouchNothing = (w : W) → All (λ e. KeepsBody e.1) (o.local_tools w)
