-- ===== src/ResponseLog/Tests.antt =====
-- The log of a message with a list of three messages.
use kratos_core.Prelude.{◌≤◌, ◌≡◌, ◌⊎◌, refl, none, some}
use kratos_core.Prelude.Error.{ok}
use kratos_core.ResponseLog.{
  Message, message, field, no_fields, messages, more, no_messages, Codec, Reply, extract_response,
  ResponseLogSummary,
}
use kratos_core.ResponseLog.Small.{IsSmall, extract_response-IsSmall}

abbrev empty : Message
empty = message no_fields

abbrev page : Message
page =
    message (field "items" (messages (more empty (more empty (more empty no_messages)))) no_fields)

abbrev reply : Reply
reply = record { proto = some page; redacted = none; string = none; formatted = "" }

abbrev codec : Codec
codec = record {
  marshal = λ reply. ok "{}";
  byte_length = λ s. 2;
  summary = λ s. s.reason;
  redact = λ s. s;
  fallback_text = λ s. s;
}

extract_response-IsSmall_example :
    ((s : ResponseLogSummary) × (extract_response codec reply ≡ s.reason))
    ⊎ ((extract_response codec reply ≡ "{}") × IsSmall page × (2 ≤ 32768))
extract_response-IsSmall_example = extract_response-IsSmall codec reply page "{}" refl refl

extract_response_test : extract_response codec reply ≡ "{}"
unfolding extract_response kratos_core.ResponseLog.message_list_stats
    kratos_core.ResponseLog.list_stats
extract_response_test = refl
