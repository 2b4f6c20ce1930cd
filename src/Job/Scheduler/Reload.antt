-- ===== src/Job/Scheduler/Reload.antt =====
-- `reloadJobs`: the running timers and the store, over the loop.
use mathlib.Core.Path.{subst}
use kratos_core.Prelude.{
  ◌≡◌, refl, sym, ap, ◌∙◌, ◌≢◌, true, false, Option, none, List, [], ◌∷◌, arith, Bool-cases, inl,
  inr, All,
}
use kratos_core.Prelude.Int.{ℤ}
use kratos_core.Prelude.Eq.{◌==◌, int_eq}
use kratos_core.Prelude.Error.{ok, Result-cases}
use kratos_core.Job.World.{JobRecord, Context, Env, State, run, status_enable, emit, listed}
use kratos_core.Job.Views.{stored}
use kratos_core.Job.Scheduler.{start_job, stop_job, reload_each, reload_jobs}
use kratos_core.Job.Scheduler.Start.{stop_job_ok, stop_job-found}
use kratos_core.Job.Scheduler.Persisted.{
  IsFaithful, Live, Settled, Keeps, Keeps-refl, Keeps-trans, Keeps-SettledIf, stop_job-Keeps,
  start_job-Live,
}

module _ (env : Env) (persisted : ℤ → ℤ) (faithful : IsFaithful env persisted)
    (ctx : Option Context) where
  abbrev Loop : List JobRecord → List JobRecord → State → Type 0
  Loop started items s = (reload_each env ctx started items s).0 ≡ ok tt

  -- One round of a loop that succeeds: the job is settled, and the loop goes on from `s'`.
  record Round (started : List JobRecord) (item : JobRecord) (rest : List JobRecord) (s : State)
      : Type 0 where
    next : List JobRecord
    s' : State
    goes_on :
        run (reload_each env ctx started (item ∷ rest)) s ≡ run (reload_each env ctx next rest) s'
    succeeds : Loop next rest s'
    settled : Settled persisted s' item
    keeps : (id : ℤ) → item.id ≢ id → Keeps persisted s s' id

  Round-enabled :
      (started : List JobRecord) (item reset : JobRecord) (rest : List JobRecord) (s : State)
      → stored item.id s.trace ≡ none
      → item.entry_id ≡ persisted item.id
      → (stop_job env ctx item s).0 ≡ ok reset
      → (item.status == status_enable) ≡ true
      → Loop started (item ∷ rest) s
      → Round started item rest s
  unfolding reload_each
  Round-enabled started item reset rest s u l p b h =
      let (current, f) = stop_job-found env ctx item s reset p in
      let (same, zeroed, _) = stop_job_ok env ctx item s current reset f p in
      let s₁ : State = run (stop_job env ctx item) s in
      let b' : (reset.status == status_enable) ≡ true = rw same b in
      elim (Result-cases (start_job env ctx reset s₁).0) [
        | inr (e, q) ↦ absurd (ground (arith, p, b', q, h))
        | inl (job, q) ↦
            let (live, keeps) =
              start_job-Live env persisted faithful ctx reset job s₁ (rw same zeroed) (rw same refl)
                q in
            record {
              next = job ∷ started;
              s' = run (start_job env ctx reset) s₁;
              goes_on = ground (arith, p, b', q);
              succeeds = ground (arith, p, b', q, h);
              settled = rw b (
                  subst (λ i. Live persisted (run (start_job env ctx reset) s₁) i)
                    (ap (λ (j : JobRecord). j.id) same) live);
              keeps = λ id d.
                  Keeps-trans persisted
                    (stop_job-Keeps env persisted faithful ctx item reset s id u l p d)
                    (keeps id (rw same d));
            }
      ]

  Round-disabled :
      (started : List JobRecord) (item reset : JobRecord) (rest : List JobRecord) (s : State)
      → stored item.id s.trace ≡ none
      → item.entry_id ≡ persisted item.id
      → (stop_job env ctx item s).0 ≡ ok reset
      → (item.status == status_enable) ≡ false
      → Loop started (item ∷ rest) s
      → Round started item rest s
  unfolding reload_each
  Round-disabled started item reset rest s u l p b h =
      let (current, f) = stop_job-found env ctx item s reset p in
      let (same, zeroed, _) = stop_job_ok env ctx item s current reset f p in
      let b' : (reset.status == status_enable) ≡ false = rw same b in
      record {
        next = started;
        s' = run (stop_job env ctx item) s;
        goes_on = ground (arith, p, b');
        succeeds = ground (arith, p, b', h);
        settled = rw b zeroed;
        keeps = λ id d. stop_job-Keeps env persisted faithful ctx item reset s id u l p d;
      }

  round :
      (started : List JobRecord) (item : JobRecord) (rest : List JobRecord) (s : State)
      → stored item.id s.trace ≡ none
      → item.entry_id ≡ persisted item.id
      → Loop started (item ∷ rest) s
      → Round started item rest s
  unfolding reload_each
  round started item rest s u l h = elim (Result-cases (stop_job env ctx item s).0) [
    | inr (e, p) ↦ absurd (ground (arith, p, h))
    | inl (reset, p) ↦ elim (Bool-cases (item.status == status_enable)) [
      | inl b ↦ Round-enabled started item reset rest s u l p b h
      | inr b ↦ Round-disabled started item reset rest s u l p b h
    ]
  ]

  -- The listed jobs that the loop still has to visit: not touched, and of different numbers.
  abbrev pub Untouched : State → List JobRecord → Type 0
  Untouched s [] = Unit
  Untouched s (item ∷ rest) =
      (stored item.id s.trace ≡ none)
      × (item.entry_id ≡ persisted item.id)
      × All (λ (j : JobRecord). item.id ≢ j.id) rest
      × Untouched s rest

  Untouched-step :
      (s s' : State) (id : ℤ) (rest : List JobRecord)
      → ((k : ℤ) → id ≢ k → Keeps persisted s s' k)
      → All (λ (j : JobRecord). id ≢ j.id) rest
      → Untouched s rest
      → Untouched s' rest
  Untouched-step s s' id [] keeps d u = tt
  Untouched-step s s' id (j ∷ rest) keeps d (a, l, e, u) =
      ((keeps j.id d.0).same ∙ a, l, e, Untouched-step s s' id rest keeps d.1 u)

  -- The loop leaves alone what belongs to none of the jobs that it visits.
  reload_each-Keeps :
      (started items : List JobRecord) (s : State) (id : ℤ)
      → Untouched s items
      → All (λ (j : JobRecord). j.id ≢ id) items
      → Loop started items s
      → Keeps persisted s (run (reload_each env ctx started items) s) id
  unfolding reload_each
  reload_each-Keeps started [] s id u d h = Keeps-refl persisted s id
  reload_each-Keeps started (item ∷ rest) s id (a, l, e, u) d h =
      let r = round started item rest s a l h in
      rw r.goes_on (
        Keeps-trans persisted (r.keeps id d.0) (
          reload_each-Keeps r.next rest r.s' id (Untouched-step s r.s' item.id rest r.keeps e u) d.1
            r.succeeds))

  swap_ne :
      (id : ℤ) (rest : List JobRecord)
      → All (λ (j : JobRecord). id ≢ j.id) rest
      → All (λ (j : JobRecord). j.id ≢ id) rest
  swap_ne id [] h = tt
  swap_ne id (j ∷ rest) h = (λ e. h.0 (sym e), swap_ne id rest h.1)

  reload_each_settles :
      (started items : List JobRecord) (s : State)
      → Untouched s items
      → Loop started items s
      → All (Settled persisted (run (reload_each env ctx started items) s)) items
  reload_each_settles started [] s u h = tt
  reload_each_settles started (item ∷ rest) s (a, l, e, u) h =
      let r = round started item rest s a l h in
      let u' = Untouched-step s r.s' item.id rest r.keeps e u in
      subst (λ t. All (Settled persisted t) (item ∷ rest)) (sym r.goes_on)
        (
          Keeps-SettledIf persisted (item.status == status_enable)
              (reload_each-Keeps r.next rest r.s' item.id u' (swap_ne item.id rest e) r.succeeds)
              r.settled,
          reload_each_settles r.next rest r.s' u' r.succeeds,
        )

  Untouched-listed :
      (s : State) (items : List JobRecord) → Untouched s items → Untouched (emit listed s) items
  Untouched-listed s [] u = tt
  Untouched-listed s (item ∷ rest) (a, l, e, u) = (a, l, e, Untouched-listed s rest u)

  -- After a successful reload every listed job that is enabled has a running timer under the
  -- number that the store holds for it, and every other listed job has the number 0. It needs jobs
  -- of different identifiers for which this process has stored nothing yet, a store that returns
  -- what it accepted, and a transport that gives numbers of the type `int32` and never one that
  -- the store held from an earlier process.
  pub reload_jobs_settles :
      (items : List JobRecord) (s : State)
      → env.list_jobs ctx s.trace ≡ ok items
      → Untouched s items
      → (reload_jobs env ctx s).0 ≡ ok tt
      → All (Settled persisted (run (reload_jobs env ctx) s)) items
  unfolding reload_jobs
  reload_jobs_settles items s p u h =
      let s₁ : State = emit listed s in
      let runs : run (reload_jobs env ctx) s ≡ run (reload_each env ctx [] items) s₁ =
        ground (arith, p) in
      subst (λ t. All (Settled persisted t) items) (sym runs)
        (reload_each_settles [] items s₁ (Untouched-listed s items u) (ground (arith, p, h)))
