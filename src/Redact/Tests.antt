-- ===== src/Redact/Tests.antt =====
-- A login request in the log.
use kratos_core.Prelude.{◌≡◌, refl}
use kratos_core.Prelude.Text.{lower}
use kratos_core.Redact.{
  Json, string, array, object, no_items, item, no_members, member, log_redacted_value,
  redact_log_value, redact_inside, is_sensitive_log_key, is_sensitive_log_string,
  normalize_sensitive_log_key,
}
use kratos_core.Redact.Clean.{IsClean, redact_log_value-IsClean}

abbrev login : Json
login = object (
    member "Old-Password" (string "x") (
      member "tags" (array (item (string "Bearer abc") (item (string "web") no_items))) no_members))

login_test :
    redact_log_value "" login
    ≡ object (
        member "Old-Password" (string log_redacted_value) (
          member "tags"
            (array (item (string log_redacted_value) (item (string "web") no_items)))
            no_members))
unfolding redact_log_value is_sensitive_log_key is_sensitive_log_string normalize_sensitive_log_key
    lower redact_inside
login_test = refl

redact_log_value-IsClean_example :
    IsClean (redact_log_value "" login)
    × (redact_log_value "" (redact_log_value "" login) ≡ redact_log_value "" login)
redact_log_value-IsClean_example = redact_log_value-IsClean login
