-- ===== src/Scheduler/Engine/Best.antt =====
-- scheduler_engine.py: which placement `submit_task` picks, and what a drain does.
use g_io_t_edge_gateway.Prelude.{
  All, Bool-cases, List, Option, Option-cases, String, [], ap, arith, false, if◌then◌else◌, inl,
  inr, length, nat_eq, none, refl, some, string_eq, subst, sym, true, ℕ, ◌+◌, ◌==◌, ◌∙◌, ◌∷◌, ◌≡◌,
  ◌≢◌,
}
use g_io_t_edge_gateway.Dict.{insert, lookup}
use g_io_t_edge_gateway.Dict.Laws.{lookup-insert}
use g_io_t_edge_gateway.Floats.{FloatLaws, Floats}
use g_io_t_edge_gateway.Scheduler.Task.{InferenceTask, Policy, Resources, TaskPlacement}
use g_io_t_edge_gateway.Scheduler.Monitor.{ResourceMonitor, get_resource_map}
use g_io_t_edge_gateway.Scheduler.Engine.{
  Best, SchedulerEngine, choose, consider, drain_queue, drain_tasks, fallback, get_result,
  or_fallback, submit_task, try_policies,
}

module _ (f : Floats) where
  -- The placements of the policies that return one.
  unfoldable pub answers : InferenceTask f → Resources f → List (Policy f) → List (TaskPlacement f)
  answers task resources [] = []
  answers task resources (p ∷ ps) =
      let rest = answers task resources ps in
      elim (p task resources) [ none ↦ rest | some c ↦ c ∷ rest ]

  -- `p` is the first in the list among those with the highest score.
  pub data First (p : TaskPlacement f) : List (TaskPlacement f) → Type 0 where
    here :
        {c : TaskPlacement f} {cs : List (TaskPlacement f)}
        → c ≡ p
        → All (λ x. f.lt p.score x.score ≡ false) cs
        → First p (c ∷ cs)
    there :
        {c : TaskPlacement f} {cs : List (TaskPlacement f)}
        → f.lt c.score p.score ≡ true
        → First p cs
        → First p (c ∷ cs)

  scan : Best f → List (TaskPlacement f) → Best f
  scan best [] = best
  scan best (c ∷ cs) = scan (consider f best (some c)) cs

  try_policies-scan :
      (task : InferenceTask f) (resources : Resources f) (best : Best f) (ps : List (Policy f))
      → try_policies f task resources best ps ≡ scan best (answers task resources ps)
  unfolding try_policies answers scan
  try_policies-scan task resources best [] = refl
  try_policies-scan task resources best (p ∷ ps) = elim (Option-cases (p task resources)) [
    | inl e ↦ rw e (try_policies-scan task resources (consider f best none) ps ∙ refl)
    | inr (c, e) ↦ rw e (try_policies-scan task resources (consider f best (some c)) ps)
  ]

  module _ (laws : FloatLaws f) where
    lt-First :
        (s : f.Float) {p c : TaskPlacement f} {cs : List (TaskPlacement f)}
        → First p (c ∷ cs)
        → f.lt s c.score ≡ true
        → f.lt s p.score ≡ true
    lt-First s (here e all) h = subst (λ x. f.lt s x.score ≡ true) e h
    lt-First s {p} {c} (there below rest) h = laws.lt_trans s c.score p.score h below

    First-skip :
        {p b c : TaskPlacement f} {cs : List (TaskPlacement f)}
        → f.lt b.score c.score ≡ false
        → First p (b ∷ cs)
        → First p (b ∷ c ∷ cs)
    First-skip {p} {b} {c} h (here e all) =
        here e (subst (λ x. f.lt x.score c.score ≡ false) e h, all)
    First-skip {p} {b} {c} h (there below rest) =
        there below (there (ground (arith, laws.lt_compare b.score c.score p.score below)) rest)

    scan-First :
        (b : TaskPlacement f) (cs : List (TaskPlacement f))
        → (p : TaskPlacement f) × (scan (some b, b.score) cs ≡ (some p, p.score)) × First p (b ∷ cs)
    unfolding scan consider
    scan-First b [] = (b, refl, here refl tt)
    scan-First b (c ∷ cs) = elim (Bool-cases (f.lt b.score c.score)) [
      | inl more ↦
          let (p, e, first) = scan-First c cs in
          (p, rw more e, there (lt-First b.score first more) first)
      | inr less ↦ let (p, e, first) = scan-First b cs in (p, rw less e, First-skip less first)
    ]

    scan-All :
        (task : InferenceTask f) (cs : List (TaskPlacement f))
        → All (λ c. f.lt f.minus_one c.score ≡ true) cs
        → let p = or_fallback f task (scan (none, f.minus_one) cs).0 in
          (cs ≡ [] → p ≡ fallback f task) × (cs ≢ [] → First p cs)
    unfolding scan consider
    scan-All task [] h = ((λ e. refl), λ ne. absurd (ne refl))
    scan-All task (c ∷ cs) h =
        let (p, e, first) = scan-First c cs in
        (
          (λ e'. cc),
          λ ne.
              rw (h.0, or_fallback)
                (subst (λ (b : Best f). First (or_fallback f task b.0) (c ∷ cs)) (sym e) first),
        )

    -- The engine picks, among the placements of the policies that return one, the first with the
    -- highest score, if every score is above -1; where all policies raise it falls back to the cloud.
    pub choose-First :
        (task : InferenceTask f) (resources : Resources f) (ps : List (Policy f))
        → All (λ c. f.lt f.minus_one c.score ≡ true) (answers task resources ps)
        → (answers task resources ps ≡ [] → choose f task resources ps ≡ fallback f task)
          × (answers task resources ps ≢ []
              → First (choose f task resources ps) (answers task resources ps))
    choose-First task resources ps above = rw same (scan-All task (answers task resources ps) above)
      where
        same :
            choose f task resources ps
            ≡ or_fallback f task (scan (none, f.minus_one) (answers task resources ps)).0
        same =
            unfold choose in
            ap (λ (b : Best f). or_fallback f task b.0)
              (try_policies-scan task resources (none, f.minus_one) ps)

  -- The last task with an id in a list.
  pub last_for : String → List (InferenceTask f) → Option (InferenceTask f)
  last_for id [] = none
  last_for id (task ∷ tasks) =
      let own = if task.task_id == id then some task else none in
      elim (last_for id tasks) [ none ↦ own | some t ↦ some t ]

  -- The result stored for an id after a drain: of its last task, else the old one.
  abbrev pub drained :
      Resources f
      → List (Policy f)
      → Option (InferenceTask f)
      → Option (TaskPlacement f)
      → Option (TaskPlacement f)
  drained resources policies none old = old
  drained resources policies (some t) old = some (choose f t resources policies)

  drain_tasks_lem :
      (now : ℕ) (m : ResourceMonitor f) (e : SchedulerEngine f) (n : ℕ)
      (tasks : List (InferenceTask f)) (id : String)
      → let (e', processed) = drain_tasks f now m e n tasks in
        (processed ≡ n + length tasks)
        × (e'.task_queue ≡ [])
        × (lookup id e'.results
            ≡ drained
                (get_resource_map f now m)
                e.policies
                (last_for id tasks)
                (lookup id e.results))
  unfolding drain_tasks submit_task last_for
  drain_tasks_lem now m e n [] id = (omega arith, refl, refl)
  drain_tasks_lem now m e n (task ∷ tasks) id =
      let placement = choose f task (get_resource_map f now m) e.policies in
      let (count, empty, found) =
        drain_tasks_lem now m
          (record e { task_queue = tasks; results = insert task.task_id placement e.results })
          (n + 1) tasks id in
      (
        omega (arith, count),
        empty,
        ground (
          arith,
          found,
          lookup-insert task.task_id id placement e.results,
          string_eq.beq_iff task.task_id id,
        ),
      )

  -- A drain processes every queued task once and empties the queue; afterwards the result under an
  -- id is the engine's choice for the last queued task of that id, and the old one where none was
  -- queued.
  pub drain_queue_lem :
      (now : ℕ) (m : ResourceMonitor f) (e : SchedulerEngine f) (id : String)
      → let (e', processed) = drain_queue f now m e in
        (processed ≡ length e.task_queue)
        × (e'.task_queue ≡ [])
        × (get_result f e' id
            ≡ drained
                (get_resource_map f now m)
                e.policies
                (last_for id e.task_queue)
                (get_result f e id))
  unfolding drain_queue get_result
  drain_queue_lem now m e id =
      let (count, empty, found) = drain_tasks_lem now m e 0 e.task_queue id in
      (omega (arith, count), empty, found)
