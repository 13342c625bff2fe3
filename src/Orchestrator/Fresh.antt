-- ===== src/Orchestrator/Fresh.antt =====
-- The chain of middlewares that services/conversation/tools/orchestrator.py makes for each request.
use yuviz.Base.{◌≡◌, refl}
use yuviz.Tools.{ToolExecutionRequest}
use yuviz.Middleware.{with_timeout, call_tool, is_open, with_retry, retry_loop}
use yuviz.Orchestrator.Shapes.{ToolCallOrchestrator}
use yuviz.Orchestrator.{execute_chain}

-- The chain answers what the first attempt of the executor gives within the time limit, whatever came
-- before: its circuit breaker is new, so it is never open.
pub execute_chain_lem :
    {W : Type 0} (o : ToolCallOrchestrator W) (request : ToolExecutionRequest)
    → execute_chain o request ≡ with_timeout (o.respond request 0)
unfolding execute_chain call_tool is_open with_retry retry_loop
execute_chain_lem o request = refl
