-- ===== src/Auth/Authorizer.antt =====
-- The audited authorizer of server/middleware/auth.go. The engine, the clock and the split of an
-- address are outside.
pub mod Audit
use kratos_core.Prelude.{ℕ, String, Bool, true, false, Option, none, some}
use kratos_core.Prelude.Int.{ℤ, pos, to_i32}
use kratos_core.Prelude.Error.{Error, Result, ok, err}
use kratos_core.Log.Event.{LogEvent, no_event}
use kratos_core.Log.Pipeline.{Outside, Pipeline, emit_log}
use kratos_core.Auth.{HttpRequest, Transport, AuthnClaims, AuthzClaims, Request}

pub record Engine : Type 0 where
  pub name : String
  pub is_authorized : String → String → String → String → Result Bool
  pub started_at : ℕ
  pub elapsed_ms : ℤ
  pub request_id : String
  pub trace_id : String
  pub split_host_port : String → Option String
  pub error_text : Error → String

-- The four values of `emitPolicyEvaluation` that follow the answer.
pub record Evaluation : Type 0 where
  pub decision : ℤ
  pub status_code : ℤ
  pub reason_code : String
  pub reason : String
  pub is_success : Bool

abbrev pub policy_decision_allow : ℤ
policy_decision_allow = pos 1

abbrev pub policy_decision_deny : ℤ
policy_decision_deny = pos 2

abbrev pub policy_decision_error : ℤ
policy_decision_error = pos 3

module _ (engine : Engine) where
  evaluation : Result Bool → Evaluation
  evaluation (err e) = record {
    decision = policy_decision_error;
    status_code = pos 500;
    reason_code = "INTERNAL_ERROR";
    reason = engine.error_text e;
    is_success = false;
  }
  evaluation (ok true) = record {
    decision = policy_decision_allow;
    status_code = pos 200;
    reason_code = "";
    reason = "";
    is_success = true;
  }
  evaluation (ok false) = record {
    decision = policy_decision_deny;
    status_code = pos 403;
    reason_code = "PERMISSION_DENIED";
    reason = "权限策略拒绝访问";
    is_success = true;
  }

  host_of : String → Option String → String
  host_of address none = address
  host_of address (some host) = host

  with_request : Option HttpRequest → LogEvent → LogEvent
  unfolding host_of
  with_request none event = event
  with_request (some r) event = record event {
    method = r.method;
    path = r.path;
    client_ip = host_of r.remote_address (engine.split_host_port r.remote_address);
    user_agent = r.user_agent;
  }

  with_transport : Option Transport → LogEvent → LogEvent
  unfolding with_request
  with_transport none event = event
  with_transport (some t) event = with_request t.request (record event { operation = t.operation })

  -- The getters return a zero value with an error.
  or_zero : Result ℤ → ℤ
  or_zero (ok n) = n
  or_zero (err e) = pos 0

  or_empty : Result String → String
  or_empty (ok s) = s
  or_empty (err e) = ""

  with_claims : Option AuthnClaims → LogEvent → LogEvent
  unfolding or_zero or_empty
  with_claims none event = event
  with_claims (some c) event = record event {
    user_id = or_zero c.user_id;
    user_name = or_empty c.subject;
    tenant_id = or_zero c.tenant_id;
    tenant_code = or_empty c.tenant_code;
    role_id = or_zero c.role_id;
  }

  with_tenant : Option AuthzClaims → LogEvent → LogEvent
  with_tenant none event = event
  with_tenant (some c) event = record event { tenant_code = c.tenant }

  unfoldable pub policy_evaluation :
      Request → String → String → String → String → Result Bool → LogEvent
  unfolding evaluation with_transport with_claims with_tenant
  policy_evaluation req subject action resource project answer =
      let e = evaluation answer in
      with_tenant req.authz (
        with_claims req.authn (
          with_transport req.transport (record no_event {
            kind = "policy_evaluation";
            engine = engine.name;
            evaluation_type = pos 1;
            request_id = engine.request_id;
            trace_id = engine.trace_id;
            resource = resource;
            action = action;
            project = project;
            decision = e.decision;
            status_code = e.status_code;
            is_success = e.is_success;
            duration_ms = to_i32 engine.elapsed_ms;
            request_time = some engine.started_at;
            reason_code = e.reason_code;
            reason = e.reason;
            role_code = subject;
          })))

  -- `IsAuthorized`; a failed emission is only logged.
  unfoldable pub is_authorized :
      Outside → Request → String → String → String → String → Pipeline → Result Bool × Pipeline
  unfolding policy_evaluation
  is_authorized o req subject action resource project p =
      let answer = engine.is_authorized subject action resource project in
      (answer, (emit_log o (policy_evaluation req subject action resource project answer) p).1)
