-- ===== src/Job/Scheduler/Params.antt =====
-- `parseJobArgs`: the map that the executor gets.
use kratos_core.Prelude.{
  String, ◌≡◌, refl, ◌≢◌, Option, none, some, List, [], ◌∷◌, arith, if◌then◌else◌,
}
use kratos_core.Prelude.Eq.{◌==◌, string_eq, ==_iff, lookup, insert}
use kratos_core.Prelude.Error.{ok}
use kratos_core.Job.World.{Args, JobArg, Env}
use kratos_core.Job.Scheduler.{collect_args, put_arg, parse_job_args}

-- The value that one item of the list gives to a key.
abbrev own_value : String → Option JobArg → Option String
own_value k none = none
own_value k (some a) = if a.key == k then some a.value else none

-- The value that the list gives to a key: the last one.
abbrev pub given_value : String → List (Option JobArg) → Option String
given_value k [] = none
given_value k (item ∷ rest) = elim (given_value k rest) [
  | some v ↦ some v
  | none ↦ own_value k item
]

abbrev or_before : Option String → Option String → Option String
or_before (some v) before = some v
or_before none before = before

lookup-put_arg :
    (k : String) (item : Option JobArg) (m : Args)
    → k ≢ ""
    → lookup k (put_arg item m) ≡ or_before (own_value k item) (lookup k m)
unfolding put_arg insert lookup
lookup-put_arg k none m h = refl
lookup-put_arg k (some a) m h = ground (arith, ==_iff a.key "", ==_iff a.key k)

lookup-collect_args :
    (k : String) (m : Args) (items : List (Option JobArg))
    → k ≢ ""
    → lookup k (collect_args m items) ≡ or_before (given_value k items) (lookup k m)
unfolding collect_args
lookup-collect_args k m [] h = refl
lookup-collect_args k m (item ∷ rest) h =
    ground (arith, lookup-collect_args k (put_arg item m) rest h, lookup-put_arg k item m h)

-- Arguments that decode become a map: each non-empty key has the value of its last item, and items
-- that are null or have an empty key give nothing.
pub parse_job_args-lookup :
    (env : Env) (raw : String) (items : List (Option JobArg)) (k : String)
    → raw ≢ ""
    → env.decode_args raw ≡ ok items
    → k ≢ ""
    → (args : Args) × (parse_job_args env raw ≡ ok args) × (lookup k args ≡ given_value k items)
unfolding parse_job_args lookup
parse_job_args-lookup env raw items k r d h = (
  collect_args [] items,
  ground (arith, d, ==_iff raw ""),
  ground (arith, lookup-collect_args k [] items h),
)
