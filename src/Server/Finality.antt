-- ===== src/Server/Finality.antt =====
-- Executions with a verdict, under requests and ends of workers of a whole server.
use sctp_conformance.Base.{ℕ, ◌≡◌, ◌≢◌, true, some, Bytes}
use sctp_conformance.Http.{HttpRequest}
use sctp_conformance.Session.{FeatureExecution}
use sctp_conformance.Worker.{Verdict}
use sctp_conformance.Api.Verdicts.{is_terminal}
use sctp_conformance.Server.State.{Server}
use sctp_conformance.Server.Requests.{Surroundings, Setting, Reply, handle_request}
use sctp_conformance.Server.Reach.{finish_worker}
use sctp_conformance.Server.Survival.{Survives, handle_request-Survives, finish_worker-Survives}

-- The servers after requests and ends of workers, none of which makes a session under this id.
module _ (setting : Setting) (session_id : Bytes) where
  pub data Later : Server → Server → Type 0 where
    same : {srv : Server} → Later srv srv
    request :
        {srv mid srv' : Server} (env : Surroundings) (r : HttpRequest) (reply : Reply)
        → Later srv mid
        → env.random_id ≢ session_id
        → handle_request setting env r mid ≡ some (srv', reply)
        → Later srv srv'
    worker_ends :
        {srv mid srv' : Server} (key feature_id : Bytes) (now : ℕ) (verdict : Verdict)
        → Later srv mid
        → finish_worker key feature_id now verdict mid ≡ some srv'
        → Later srv srv'

  -- A verdict is final: whatever requests and ends of workers follow, as long as no new session
  -- takes the id, the session is still there and an execution that has passed, failed, timed out or
  -- been declared unsupported is still the same, with its message and evidence.
  pub verdict_is_final :
      (srv srv' : Server) (id : Bytes) (e : FeatureExecution)
      → Later srv srv'
      → is_terminal e.state ≡ true
      → Survives session_id id e srv
      → Survives session_id id e srv'
  verdict_is_final srv srv' id e same ends s = s
  verdict_is_final srv srv' id e (request {mid = mid} env r reply before fresh h) ends s =
      handle_request-Survives setting env r mid srv' reply session_id id e h fresh ends
        (verdict_is_final srv mid id e before ends s)
  verdict_is_final srv srv' id e (worker_ends {mid = mid} key feature_id now verdict before h) ends
        s =
      finish_worker-Survives key feature_id now verdict mid srv' session_id id e h ends
        (verdict_is_final srv mid id e before ends s)
