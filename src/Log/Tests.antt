-- ===== src/Log/Tests.antt =====
-- Runs of the log pipeline, of the keys, and of a consumer whose store is the list of its keys.
use kratos_core.Prelude.{
  ℕ, ◌≡◌, refl, ap, true, false, Option, none, some, List, [], ◌∷◌, ◌++◌, if◌then◌else◌, arith,
}
use kratos_core.Prelude.Eq.{nat_eq, string_eq, contains}
use kratos_core.Prelude.Error.{Error, ok, plain}
use kratos_core.Log.Event.{no_event}
use kratos_core.Log.Pipeline.{
  Outside, Pipeline, Action, emits, logs, works, closes, run, new_log_pipeline,
}
use kratos_core.Log.Pipeline.Delivery.{accepted, run-accepted, close_drains}
use kratos_core.Log.Key.{Bytes, cut_dash, parse_nonneg, digits_value, log_message_primary_key}
use kratos_core.Log.Key.Distinct.{IsStamp}
use kratos_core.Log.Store.{Store, consume, persist}
use kratos_core.Log.Store.Repeat.{IsPrimary, consume_twice}

abbrev outside : Outside
outside = record {
  now = λ seen. 10;
  new_guid = λ seen. "guid";
  default_tenant_code = "default";
  marshal = λ event. ok event.kind;
  append = λ sent body. none;
}

abbrev actions : List (Action outside)
actions = emits no_event ∷ logs no_event ∷ works ∷ closes ∷ emits no_event ∷ works ∷ []

run-accepted_example :
    (run outside actions new_log_pipeline).received ++ (run outside actions new_log_pipeline).events
    ≡ accepted outside actions new_log_pipeline
unfolding new_log_pipeline
run-accepted_example = run-accepted outside actions new_log_pipeline

abbrev closed_with_one : Pipeline
closed_with_one = record {
  events = no_event ∷ [];
  closed = true;
  installed = false;
  received = [];
  appended = [];
}

close_drains_example :
    ((run outside (emits no_event ∷ works ∷ []) closed_with_one).received ≡ no_event ∷ [])
    × ((run outside (emits no_event ∷ works ∷ []) closed_with_one).events ≡ [])
close_drains_example =
    close_drains outside (emits no_event ∷ works ∷ []) closed_with_one refl (omega arith)

-- "7-2" and "8-0"
abbrev first_id : Bytes
first_id = b'7' ∷ b'-' ∷ b'2' ∷ []

abbrev second_id : Bytes
second_id = b'8' ∷ b'-' ∷ b'0' ∷ []

first-IsStamp : IsStamp first_id 7 2
unfolding cut_dash parse_nonneg digits_value
first-IsStamp = record {
  timestamp = b'7' ∷ [];
  sequence = b'2' ∷ [];
  cuts = refl;
  time = refl;
  order = refl;
  positive = omega arith;
  time_bound = omega arith;
  order_bound = omega arith;
}

abbrev first_time : ℕ
first_time = 7

abbrev first_order : ℕ
first_order = 2

abbrev Keys : Type 0
Keys = List ℕ × List ℕ

abbrev create : ℕ → List ℕ → Option Error × List ℕ
create k keys = if contains keys k then (some (plain "duplicate key"), keys) else (none, k ∷ keys)

create_kept :
    (k : ℕ) (keys keys' : List ℕ) → create k keys ≡ (none, keys') → contains keys' k ≡ true
unfolding contains
create_kept k keys keys' h = ground (arith, h)

create_refused :
    (k : ℕ) (keys : List ℕ)
    → contains keys k ≡ true
    → create k keys ≡ (some (plain "duplicate key"), keys)
create_refused k keys h = rw h refl

abbrev store : Store Keys
store = record {
  create_api = λ r s. let (e, keys) = create r.id s.0 in (e, (keys, s.1));
  exists_api = λ k s. ok (contains s.0 k);
  create_policy_evaluation = λ r s. let (e, keys) = create r.id s.1 in (e, (s.0, keys));
  exists_policy_evaluation = λ k s. ok (contains s.1 k);
  unmarshal = λ raw. ok (record no_event { kind = "api" });
  now = λ s. 10;
  new_guid = λ s. "g";
  default_tenant_code = "default";
}

primary : IsPrimary store
primary = record {
  api_created = λ r s s' h. ap ok (create_kept r.id s.0 s'.0 (ap (λ x. (x.0, x.1.0)) h));
  api_refused = λ r s h. (
    plain "duplicate key",
    ap (λ x. (x.0, (x.1, s.1))) (create_refused r.id s.0 (ground (arith, h))),
  );
  policy_created = λ r s s' h. ap ok (create_kept r.id s.1 s'.1 (ap (λ x. (x.0, x.1.1)) h));
  policy_refused = λ r s h. (
    plain "duplicate key",
    ap (λ x. (x.0, (s.0, x.1))) (create_refused r.id s.1 (ground (arith, h))),
  );
}

consume_twice_example :
    consume store (some "{}") first_id (log_message_primary_key first_id ∷ [], [])
    ≡ (none, (log_message_primary_key first_id ∷ [], []))
unfolding consume persist contains
consume_twice_example =
    consume_twice store primary (some "{}") first_id ([], [])
      (log_message_primary_key first_id ∷ [], []) (λ e. cc) refl
