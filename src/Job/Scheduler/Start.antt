-- ===== src/Job/Scheduler/Start.antt =====
-- `startJob` and `stopJob`: the timers that run and the entry numbers that the store holds.
use kratos_core.Prelude.{
  zero, suc, String, ◌≡◌, refl, ◌≢◌, Bool, true, false, not, ◌&&◌, ◌||◌, Option, some, List, ◌∷◌,
  arith, if◌then◌else◌, inl, inr,
}
use kratos_core.Prelude.Int.{ℤ, pos, negsuc, is_pos, to_i32, IsI32, to_i32-id, int_beq_iff}
use kratos_core.Prelude.Eq.{
  ◌==◌, string_eq, int_eq, contains, remove, contains-remove, remove_absent,
}
use kratos_core.Prelude.Error.{Error, ok, err, Result-cases}
use kratos_core.Job.World.{
  JobRecord, Context, TimerJob, Trace, Env, State, TaskExec, Args, emit, found, run,
}
use kratos_core.Job.Views.{active, stored}
use kratos_core.Job.Scheduler.{
  start_job, register_job, timer_of, stop_job, current_entry, lookup_task_exec, parse_job_args,
}

-- A new timer gets a number that no running timer has, and it fits the record's `int32`.
pub record IsFresh (env : Env) : Type 0 where
  pub absent :
      (spec : String) (timer : TimerJob) (t : Trace) (e : ℤ)
      → env.start_timer_job spec timer t ≡ ok e
      → contains (active t) e ≡ false

-- What a failed action leaves alone.
abbrev pub Unchanged : State → State → Type 0
Unchanged s s' =
    (active s'.trace ≡ active s.trace) × ((id : ℤ) → stored id s'.trace ≡ stored id s.trace)

module _ (env : Env) (fresh : IsFresh env) (ctx : Option Context) (job : JobRecord) where
  register_job_err :
      (target : TaskExec) (args : Args) (old : ℤ) (s : State) (e : Error)
      → (register_job env ctx job target args old s).0 ≡ err e
      → Unchanged s (run (register_job env ctx job target args old) s)
  unfolding register_job remove
  register_job_err target args old s e h =
      elim (Result-cases
        (env.start_timer_job job.cron_expression (timer_of env ctx job args target s) s.trace)) [
          | inr (x, p) ↦ rw p (refl, λ id. refl)
          | inl (n, p) ↦
              let absent = remove_absent n (active s.trace) (fresh.absent _ _ _ n p) in
              (ground (arith, p, absent), λ id. ground (arith, p))
        ]

  -- A failed start leaves the running timers and the stored entry numbers as they were, if the
  -- transport gives a new timer a number that no running timer has.
  pub start_job_err :
      (s : State) (e : Error)
      → (start_job env ctx job s).0 ≡ err e
      → Unchanged s (run (start_job env ctx job) s)
  unfolding start_job
  start_job_err s e h = elim (Result-cases (lookup_task_exec env job.invoke_target)) [
    | inr (x, p) ↦ rw p (refl, λ id. refl)
    | inl (target, p) ↦ elim (Result-cases (parse_job_args env job.args)) [
      | inr (x, q) ↦ rw (p, q) (refl, λ id. refl)
      | inl (args, q) ↦ elim (Result-cases (env.find_by_id ctx job.id s.trace)) [
        | inr (x, r) ↦ rw (p, q, r) (refl, λ id. refl)
        | inl (current, r) ↦
            rw (p, q, r)
              (register_job_err target args (current_entry env current job) (emit (found job.id) s)
                e (rw (p, q, r) at h))
      ]
    ]
  ]

-- The number of a job's timer: the one that the store holds, or the given one where it holds none.
abbrev pub entry_of : ℤ → ℤ → ℤ
entry_of (pos zero) given = given
entry_of (pos (suc n)) given = pos (suc n)
entry_of (negsuc n) given = given

pub current_entry-entry_of :
    (env : Env) (current given : JobRecord)
    → current_entry env current given ≡ entry_of current.entry_id given.entry_id
current_entry-entry_of env current given = stored_entry current.entry_id
  where
    stored_entry : (n : ℤ) → (if is_pos n then n else given.entry_id) ≡ entry_of n given.entry_id
    stored_entry (pos zero) = refl
    stored_entry (pos (suc n)) = ground arith
    stored_entry (negsuc n) = refl

-- Where the old timer is stopped, it is the new one's own number only by a wrap of `int32`.
abbrev pub stops_old : ℤ → ℤ → ℤ → Bool
stops_old old n x = is_pos old && not (old == to_i32 n) && old == x

module _ (env : Env) (ctx : Option Context) (job : JobRecord) where
  pub record Registered (old : ℤ) (before : List ℤ) (s' : State) (job' : JobRecord) (n : ℤ)
      : Type 0 where
    pub given :
        (timer : TimerJob) × (t : Trace) × (env.start_timer_job job.cron_expression timer t ≡ ok n)
    pub recorded : job' ≡ record job { entry_id = to_i32 n }
    pub persisted : stored job.id s'.trace ≡ some (to_i32 n)
    pub running : contains (active s'.trace) n ≡ true
    pub others :
        (x : ℤ)
        → contains (active s'.trace) x
          ≡ (if stops_old old n x then false else n == x || contains before x)

  register_job_ok :
      (target : TaskExec) (args : Args) (old : ℤ) (s : State) (job' : JobRecord)
      → IsI32 old
      → (register_job env ctx job target args old s).0 ≡ ok job'
      → (n : ℤ) × Registered old
          (active s.trace)
          (run (register_job env ctx job target args old) s)
          job'
          n
  unfolding register_job contains
  register_job_ok target args old s job' w h =
      elim (Result-cases
        (env.start_timer_job job.cron_expression (timer_of env ctx job args target s) s.trace)) [
          | inr (x, p) ↦ ground (arith, p)
          | inl (n, p) ↦ (
            n,
            record {
              given = (timer_of env ctx job args target s, s.trace, p);
              recorded = ground (arith, p);
              persisted = ground (arith, p, int_beq_iff job.id job.id);
              running = ground (
                arith,
                p,
                int_beq_iff n n,
                int_beq_iff old n,
                int_beq_iff old (to_i32 n),
                to_i32-id old w,
                contains-remove old n (n ∷ active s.trace),
              );
              others = λ x.
                  ground (arith, p, int_beq_iff old x, contains-remove old x (n ∷ active s.trace));
            },
          )
        ]

  pub start_job_ok :
      (s : State) (current job' : JobRecord)
      → env.find_by_id ctx job.id s.trace ≡ ok current
      → IsI32 (current_entry env current job)
      → (start_job env ctx job s).0 ≡ ok job'
      → (n : ℤ) × Registered
          (current_entry env current job)
          (active s.trace)
          (run (start_job env ctx job) s)
          job'
          n
  unfolding start_job
  start_job_ok s current job' r w h = elim (Result-cases (lookup_task_exec env job.invoke_target)) [
    | inr (x, p) ↦ ground (arith, p)
    | inl (target, p) ↦ elim (Result-cases (parse_job_args env job.args)) [
      | inr (x, q) ↦ ground (arith, p, q)
      | inl (args, q) ↦
          rw (p, q, r)
            (register_job_ok target args (current_entry env current job) (emit (found job.id) s)
              job' w (rw (p, q, r) at h))
    ]
  ]

  -- A successful stop persists the number 0 and stops the timer of the positive number that the
  -- store held, or of the given record's if the store held none; every other timer runs on.
  pub stop_job_ok :
      (s : State) (current job' : JobRecord)
      → env.find_by_id ctx job.id s.trace ≡ ok current
      → (stop_job env ctx job s).0 ≡ ok job'
      → let s' = run (stop_job env ctx job) s in
        let entry = entry_of current.entry_id job.entry_id in
        (job' ≡ record job { entry_id = pos 0 })
        × (stored job.id s'.trace ≡ some (pos 0))
        × ((x : ℤ)
            → contains (active s'.trace) x
              ≡ (if is_pos entry && entry == x then false else contains (active s.trace) x))
  unfolding stop_job
  stop_job_ok s current job' r h = (
    ground (arith, r),
    ground (arith, r, int_beq_iff job.id job.id),
    λ x. ground (
      arith,
      r,
      current_entry-entry_of env current job,
      contains-remove (current_entry env current job) x (active s.trace),
    ),
  )

  -- If the store still holds for a job a number that now runs another job's timer, stopping the
  -- job stops that timer, and the store goes on naming it as the other job's.
  pub stop_job_stale :
      (s : State) (current job' : JobRecord) (other : ℤ)
      → env.find_by_id ctx job.id s.trace ≡ ok current
      → is_pos current.entry_id ≡ true
      → job.id ≢ other
      → stored other s.trace ≡ some current.entry_id
      → (stop_job env ctx job s).0 ≡ ok job'
      → let s' = run (stop_job env ctx job) s in
        (stored other s'.trace ≡ some current.entry_id)
        × (contains (active s'.trace) current.entry_id ≡ false)
  unfolding stop_job
  stop_job_stale s current job' other r p d u h = (
    ground (arith, r, int_beq_iff job.id other),
    ground (
      arith,
      r,
      contains-remove current.entry_id current.entry_id (active s.trace),
      int_beq_iff current.entry_id current.entry_id,
    ),
  )

  -- A failed stop has stopped no timer and persisted no number.
  pub stop_job_err :
      (s : State) (e : Error)
      → (stop_job env ctx job s).0 ≡ err e
      → Unchanged s (run (stop_job env ctx job) s)
  unfolding stop_job
  stop_job_err s e h = (ground arith, λ id. ground arith)

  -- Only the entry number of the job itself is written.
  pub stop_job-stored_ne :
      (s : State) (id : ℤ)
      → job.id ≢ id
      → stored id (run (stop_job env ctx job) s).trace ≡ stored id s.trace
  unfolding stop_job
  stop_job-stored_ne s id d = ground (arith, int_beq_iff job.id id)

  register_job-stored_ne :
      (target : TaskExec) (args : Args) (old : ℤ) (s : State) (id : ℤ)
      → job.id ≢ id
      → stored id (run (register_job env ctx job target args old) s).trace ≡ stored id s.trace
  unfolding register_job
  register_job-stored_ne target args old s id d = ground (arith, int_beq_iff job.id id)

  pub start_job-stored_ne :
      (s : State) (id : ℤ)
      → job.id ≢ id
      → stored id (run (start_job env ctx job) s).trace ≡ stored id s.trace
  unfolding start_job
  start_job-stored_ne s id d = elim (Result-cases (lookup_task_exec env job.invoke_target)) [
    | inr (x, p) ↦ rw p
    | inl (target, p) ↦ elim (Result-cases (parse_job_args env job.args)) [
      | inr (x, q) ↦ rw (p, q)
      | inl (args, q) ↦ elim (Result-cases (env.find_by_id ctx job.id s.trace)) [
        | inr (x, r) ↦ rw (p, q, r)
        | inl (current, r) ↦
            rw (p, q, r)
              (register_job-stored_ne target args (current_entry env current job)
                (emit (found job.id) s) id d)
      ]
    ]
  ]

  -- A start that succeeds has found the job in the store.
  pub start_job-found :
      (s : State) (job' : JobRecord)
      → (start_job env ctx job s).0 ≡ ok job'
      → (current : JobRecord) × (env.find_by_id ctx job.id s.trace ≡ ok current)
  unfolding start_job
  start_job-found s job' h = elim (Result-cases (env.find_by_id ctx job.id s.trace)) [
    | inl f ↦ f
    | inr (e, r) ↦ absurd (elim (Result-cases (lookup_task_exec env job.invoke_target)) [
      | inr (x, p) ↦ ground (arith, p)
      | inl (target, p) ↦ elim (Result-cases (parse_job_args env job.args)) [
        | inr (x, q) ↦ ground (arith, p, q)
        | inl (args, q) ↦ ground (arith, p, q, r)
      ]
    ])
  ]

  pub stop_job-found :
      (s : State) (job' : JobRecord)
      → (stop_job env ctx job s).0 ≡ ok job'
      → (current : JobRecord) × (env.find_by_id ctx job.id s.trace ≡ ok current)
  unfolding stop_job
  stop_job-found s job' h = elim (Result-cases (env.find_by_id ctx job.id s.trace)) [
    | inl f ↦ f
    | inr (e, r) ↦ ground (arith, r)
  ]
