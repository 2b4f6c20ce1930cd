-- ===== src/Log/Store.antt =====
-- biz/base_log.go: `Consume`, `persist`, the two conversions of an event into a record of
-- data/log.go, `logResult` and `serviceName`. The store and JSON are outside.
pub mod Repeat
use Prim.Native.Nat.{◌≤◌}
use Prim.Native.String.{◌++◌ as str_append}
use kratos_core.Prelude.{
  ℕ, String, ◌≡◌, refl, Bool, true, false, Option, none, some, List, [], ◌∷◌, length, leb, nat_beq,
  if◌then◌else◌,
}
use kratos_core.Prelude.Int.{ℤ, pos, negsuc, to_i32}
use kratos_core.Prelude.Eq.{◌==◌, string_eq}
use kratos_core.Prelude.Error.{Error, Result, ok, err, plain, wrapped}
use kratos_core.Prelude.Text.{split, has_prefix, trim_prefix}
use kratos_core.Log.Event.{LogEvent, normalized}
use kratos_core.Log.Key.{Bytes, log_message_primary_key}

pub record ApiLogRecord : Type 0 where
  pub id : ℕ
  pub tenant_id : ℤ
  pub tenant_code : String
  pub user_id : ℤ
  pub user_name : String
  pub request_id : String
  pub trace_id : String
  pub service_name : String
  pub operation : String
  pub method : String
  pub path : String
  pub status_code : ℤ
  pub result : ℤ
  pub reason_code : String
  pub reason : String
  pub latency_ms : ℤ
  pub client_ip : String
  pub user_agent : String
  pub occurred_at : Option ℕ
  pub created_at : ℕ

pub record PolicyEvaluationLogRecord : Type 0 where
  pub id : ℕ
  pub tenant_id : ℤ
  pub tenant_code : String
  pub user_id : ℤ
  pub user_name : String
  pub role_id : ℤ
  pub role_code : String
  pub request_id : String
  pub trace_id : String
  pub client_ip : String
  pub engine : String
  pub evaluation_type : ℤ
  pub resource : String
  pub action : String
  pub project : String
  pub decision : ℤ
  pub reason_code : String
  pub reason : String
  pub duration_ms : ℤ
  pub candidate_count : ℤ
  pub matched_count : ℤ
  pub input_hash : String
  pub occurred_at : Option ℕ
  pub created_at : ℕ

abbrev pub log_result_success : ℤ
log_result_success = pos 1

abbrev pub log_result_failure : ℤ
log_result_failure = pos 2

abbrev pub log_result_error : ℤ
log_result_error = pos 3

-- statusCode >= http.StatusInternalServerError
abbrev at_least_500 : ℤ → Bool
at_least_500 (pos n) = leb 500 n
at_least_500 (negsuc n) = false

unfoldable pub log_result : Bool → ℤ → ℤ
log_result success status =
    if success
    then log_result_success
    else if at_least_500 status
    then log_result_error
    else log_result_failure

last_part : String → List String → String
last_part d [] = d
last_part d (x ∷ rest) = last_part x rest

service_of : String → List String → String
unfolding last_part split
service_of operation (a ∷ _ ∷ []) = last_part "" (split b'.' a)
service_of operation _ = operation

unfoldable pub service_name : String → String
unfolding service_of trim_prefix
service_name operation = service_of operation (split b'/' (trim_prefix operation "/"))

service_name_test : service_name "/shop.admin.v1.GoodsService/Page" ≡ "GoodsService"
unfolding service_name
service_name_test = refl

unfoldable pub api_log_from_event : LogEvent → ℕ → ℕ → ApiLogRecord
unfolding log_result
api_log_from_event e now record_id = record {
  id = record_id;
  tenant_id = e.tenant_id;
  tenant_code = e.tenant_code;
  user_id = e.user_id;
  user_name = e.user_name;
  request_id = e.request_id;
  trace_id = e.trace_id;
  service_name = service_name e.operation;
  operation = e.operation;
  method = e.method;
  path = e.path;
  status_code = e.status_code;
  result = log_result e.is_success e.status_code;
  reason_code = e.reason_code;
  reason = e.reason;
  latency_ms = to_i32 e.cost_time;
  client_ip = e.client_ip;
  user_agent = e.user_agent;
  occurred_at = e.request_time;
  created_at = now;
}

unfoldable pub policy_evaluation_log_from_event : LogEvent → ℕ → ℕ → PolicyEvaluationLogRecord
policy_evaluation_log_from_event e now record_id = record {
  id = record_id;
  tenant_id = e.tenant_id;
  tenant_code = e.tenant_code;
  user_id = e.user_id;
  user_name = e.user_name;
  role_id = e.role_id;
  role_code = e.role_code;
  request_id = e.request_id;
  trace_id = e.trace_id;
  client_ip = e.client_ip;
  engine = e.engine;
  evaluation_type = e.evaluation_type;
  resource = e.resource;
  action = e.action;
  project = e.project;
  decision = e.decision;
  reason_code = e.reason_code;
  reason = e.reason;
  duration_ms = e.duration_ms;
  candidate_count = e.candidate_count;
  matched_count = e.matched_count;
  input_hash = e.input_hash;
  occurred_at = e.request_time;
  created_at = now;
}

-- `data.LogStore` over its own state, and the other calls of the consumer.
pub record Store (S : Type 0) : Type 0 where
  pub create_api : ApiLogRecord → S → Option Error × S
  pub exists_api : ℕ → S → Result Bool
  pub create_policy_evaluation : PolicyEvaluationLogRecord → S → Option Error × S
  pub exists_policy_evaluation : ℕ → S → Result Bool
  pub unmarshal : String → Result LogEvent
  pub now : S → ℕ
  pub new_guid : S → String
  pub default_tenant_code : String

-- What `persist` returns after the write: a failed write of a keyed record that is there already
-- is no error.
settle : ℕ → Option Error → Result Bool → Option Error
settle id none found = none
settle id (some e) (ok true) = if nat_beq id 0 then some e else none
settle id (some e) _ = some e

module _ {S : Type 0} (store : Store S) where
  unfoldable pub persist : LogEvent → ℕ → S → Option Error × S
  unfolding settle api_log_from_event policy_evaluation_log_from_event
  persist event record_id s =
      let api = store.create_api (api_log_from_event event (store.now s) record_id) s in
      let policy =
        store.create_policy_evaluation
          (policy_evaluation_log_from_event event (store.now s) record_id) s in
      if event.kind == "api"
      then (settle record_id api.0 (store.exists_api record_id api.1), api.1)
      else if event.kind == "policy_evaluation"
      then (settle record_id policy.0 (store.exists_policy_evaluation record_id policy.1), policy.1)
      else (some (plain (str_append "未知 Core 日志事件类型: " event.kind)), s)

  -- `normalizeLogEvent`
  unfoldable pub normalize_event : LogEvent → S → LogEvent
  unfolding normalized
  normalize_event event s =
      normalized (store.now s) (store.new_guid s) store.default_tenant_code event

  persist_decoded : Result LogEvent → Bytes → S → Option Error × S
  unfolding persist normalize_event
  persist_decoded (err e) id s = (some (wrapped "解析 Core 日志事件失败" e), s)
  persist_decoded (ok event) id s = persist (normalize_event event s) (log_message_primary_key id) s

  -- `message.Values["data"].(string)` and the identifier of the message.
  unfoldable pub consume : Option String → Bytes → S → Option Error × S
  unfolding persist_decoded
  consume none id s = (some (plain "Core 日志事件消息体为空"), s)
  consume (some raw) id s =
      if raw == ""
      then (some (plain "Core 日志事件消息体为空"), s)
      else persist_decoded (store.unmarshal raw) id s
