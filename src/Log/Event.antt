-- ===== src/Log/Event.antt =====
-- `LogEvent` of biz/base_log.go.
-- A time is a number of nanoseconds; `none` is the zero time.
use kratos_core.Prelude.{ℕ, String, Bool, false, Option, none, some, if◌then◌else◌}
use kratos_core.Prelude.Eq.{◌==◌, string_eq}
use kratos_core.Prelude.Int.{ℤ, pos}

pub record LogEvent : Type 0 where
  pub kind : String
  pub request_id : String
  pub trace_id : String
  pub request_time : Option ℕ
  pub method : String
  pub operation : String
  pub path : String
  pub referer : String
  pub request_uri : String
  pub request_body : String
  pub request_header : String
  pub response : String
  pub cost_time : ℤ
  pub is_success : Bool
  pub status_code : ℤ
  pub reason : String
  pub reason_code : String
  pub location : String
  pub tenant_id : ℤ
  pub tenant_code : String
  pub user_id : ℤ
  pub user_name : String
  pub client_ip : String
  pub user_agent : String
  pub browser_name : String
  pub browser_version : String
  pub client_id : String
  pub client_name : String
  pub login_type : ℤ
  pub device_id : String
  pub os_name : String
  pub os_version : String
  pub engine : String
  pub evaluation_type : ℤ
  pub resource : String
  pub action : String
  pub decision : ℤ
  pub duration_ms : ℤ
  pub project : String
  pub candidate_count : ℤ
  pub matched_count : ℤ
  pub action_code : ℤ
  pub role_id : ℤ
  pub role_code : String
  pub input_hash : String
  pub resource_type : String
  pub resource_id : String
  pub resource_name : String
  pub changed_fields : String
  pub before_data : String
  pub after_data : String
  pub access_type : ℤ
  pub data_source : String
  pub table_name : String
  pub field_scope : String
  pub data_scope : String
  pub affected_rows : ℤ
  pub sensitive : ℤ
  pub sql_text : String
  pub sql_digest : String
  pub target_type : ℤ
  pub target_id : String
  pub target_name : String
  pub old_value : String
  pub new_value : String

-- The zero value.
abbrev pub no_event : LogEvent
no_event = record {
  kind = "";
  request_id = "";
  trace_id = "";
  request_time = none;
  method = "";
  operation = "";
  path = "";
  referer = "";
  request_uri = "";
  request_body = "";
  request_header = "";
  response = "";
  cost_time = pos 0;
  is_success = false;
  status_code = pos 0;
  reason = "";
  reason_code = "";
  location = "";
  tenant_id = pos 0;
  tenant_code = "";
  user_id = pos 0;
  user_name = "";
  client_ip = "";
  user_agent = "";
  browser_name = "";
  browser_version = "";
  client_id = "";
  client_name = "";
  login_type = pos 0;
  device_id = "";
  os_name = "";
  os_version = "";
  engine = "";
  evaluation_type = pos 0;
  resource = "";
  action = "";
  decision = pos 0;
  duration_ms = pos 0;
  project = "";
  candidate_count = pos 0;
  matched_count = pos 0;
  action_code = pos 0;
  role_id = pos 0;
  role_code = "";
  input_hash = "";
  resource_type = "";
  resource_id = "";
  resource_name = "";
  changed_fields = "";
  before_data = "";
  after_data = "";
  access_type = pos 0;
  data_source = "";
  table_name = "";
  field_scope = "";
  data_scope = "";
  affected_rows = pos 0;
  sensitive = pos 0;
  sql_text = "";
  sql_digest = "";
  target_type = pos 0;
  target_id = "";
  target_name = "";
  old_value = "";
  new_value = "";
}

abbrev or_text : String → String → String
or_text s default = if s == "" then default else s

abbrev or_time : Option ℕ → ℕ → Option ℕ
or_time none now = some now
or_time (some t) now = some t

-- `normalizeLogEvent`, with the time, the new identifier and the default tenant.
unfoldable pub normalized : ℕ → String → String → LogEvent → LogEvent
normalized now guid default_tenant_code event = record event {
  kind = or_text event.kind "api";
  request_time = or_time event.request_time now;
  request_id = or_text event.request_id guid;
  tenant_code = or_text event.tenant_code default_tenant_code;
}
