-- ===== src/Queue/Tests.antt =====
-- A queue that keeps the last message, of texts that JSON quotes.
use mathlib.Core.Path.{subst}
use kratos_core.Prelude.Eq.{◌==◌, string_eq}
use kratos_core.Prelude.{arith, ◌||◌, ℕ, String, ◌≡◌, refl, false, none, some}
use kratos_core.Prelude.Error.{ok, err, plain}
use kratos_core.Prelude.Text.{is_space, trim_space}
use kratos_core.Queue.{
  text, missing, Message, Json, Runtime, decode, add_queue, cancel_queue, schedule_queue,
}
use kratos_core.Queue.Delivered.{IsJson, decode-add_queue}

abbrev json : Json ℕ ℕ
json = record { marshal = λ n. ok "7"; unmarshal = λ s. ok 7 }

abbrev runtime : Runtime ℕ (Message ℕ)
runtime = record { append = λ name m s. (none, m); schedule = none; cancel = none }

abbrev nothing : Message ℕ
nothing = record { id = ""; data_value = missing }

abbrev queued : Message ℕ
queued = record { id = ""; data_value = text "7" }

json-IsJson : IsJson json 7
unfolding trim_space is_space
json-IsJson = record {
  reads = λ body h. refl;
  trimmed = λ body h.
      let same : "7" ≡ body = ground (arith, h) in
      subst {A = String} (λ x. trim_space x ≡ x) same refl;
  is_object = λ body h.
      let same : "7" ≡ body = ground (arith, h) in
      subst {A = String} (λ x. (x == "" || x == "null") ≡ false) same refl;
}

decode-add_queue_example : decode json queued ≡ ok 7
unfolding add_queue
decode-add_queue_example =
    decode-add_queue json runtime (λ s. s) (λ name m s t h. ground (arith, h)) "stream" 7 nothing
      queued json-IsJson refl

decode_test : decode json nothing ≡ err (plain "队列消息缺少 data 字段")
unfolding decode
decode_test = refl

cancel_test :
    cancel_queue none (some runtime) "stream" "id" nothing
    ≡ (some (plain "queue does not support delayed messages"), nothing)
unfolding cancel_queue
cancel_test = refl

schedule_test :
    schedule_queue json none (some runtime) "stream" "id" 3 7 nothing
    ≡ (some (plain "queue does not support delayed messages"), nothing)
unfolding schedule_queue
schedule_test = refl
