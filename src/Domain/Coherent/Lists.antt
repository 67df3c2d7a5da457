-- ===== src/Domain/Coherent/Lists.antt =====
-- The id lists, the active task and the gate of a run through an event of
-- fsasm-first/src/fsasm/domain.py.
use fsasm_training_lab.Prelude.{
  String, ◌≡◌, ◌≢◌, refl, true, Option, none, some, List, arith, contains, ◌⊎◌, NoDup-append_once,
  NoDup-remove, contains-append_once, ==_refl,
}
use fsasm_training_lab.Models.{RunStatus, RunState, Plan}
use fsasm_training_lab.Domain.Events.{DomainEvent, event_task_id, run_planned, task_escalated}
use fsasm_training_lab.Domain.Effect.{Effect}
use fsasm_training_lab.Domain.Coherent.{ListsOk}
use fsasm_training_lab.Domain.Coherent.Ids.{Known-append_once, Known-remove}

-- The phase in which the driver sends an event: task events while the run is going on, and
-- escalations once it has been started. `apply_event` checks this for run events only.
abbrev pub TaskPhase : Option String → RunStatus → Type 0
TaskPhase none status = Unit
TaskPhase (some _) status =
    (status ≡ RunStatus.planned) ⊎ (status ≡ RunStatus.running) ⊎ (status ≡ RunStatus.needs_human)

abbrev pub InPhase : DomainEvent → RunStatus → Type 0
InPhase (task_escalated _ _ _) status =
    (status ≡ RunStatus.running) ⊎ (status ≡ RunStatus.needs_human)
InPhase e status = TaskPhase (event_task_id e) status

-- A task event keeps the lists within the ids of the plan.
pub task-ListsOk :
    (ids : List String) (s : RunState) (e : DomainEvent) (s' : RunState) (t : String)
    → Effect s e s'
    → event_task_id e ≡ some t
    → InPhase e s.status
    → contains ids t ≡ true
    → ListsOk ids s
    → ListsOk ids s'
task-ListsOk ids s e s' t (Effect.readied r v task found may) h ph known k = ground arith
task-ListsOk ids s e s' t (Effect.unblocked r v task found may) h ph known k = ground arith
task-ListsOk ids s e s' t (Effect.blocked r v task found may) h ph known k = ground arith
task-ListsOk ids s e s' t (Effect.activated r v task found ready free) h ph known k = ground arith
task-ListsOk ids s e s' t (Effect.evidenced r v refs task found) h ph known k = ground arith
task-ListsOk ids s e s' t (Effect.passed r v task found stands refs more) h ph known k =
    ground (arith, Known-append_once ids s.completed_task_ids v)
task-ListsOk ids s e s' t (Effect.passed_last r v task found stands refs last run) h ph known k =
    ground (arith, Known-append_once ids s.completed_task_ids v)
task-ListsOk ids s e s' t (Effect.failed r v task found stands) h ph known k = ground arith
task-ListsOk ids s e s' t (Effect.retried r v task found may budget) h ph known k = ground arith
task-ListsOk ids s e s' t (Effect.escalated r v n task found failed spent) h ph known k = ground (
  arith,
  Known-append_once ids s.needs_human_task_ids v,
  NoDup-append_once s.needs_human_task_ids v,
  contains-append_once s.needs_human_task_ids v v,
  ==_refl v,
)
task-ListsOk ids s e s' t
      (Effect.decided_retry r v g d n m task gate found stands opened id att app) h ph known k =
    ground (arith, Known-remove ids s.needs_human_task_ids v, NoDup-remove s.needs_human_task_ids v)
task-ListsOk ids s e s' t
      (Effect.decided_abort r v g d n m task gate found stands opened id att app) h ph known k =
    ground (
      arith,
      Known-remove ids s.needs_human_task_ids v,
      NoDup-remove s.needs_human_task_ids v,
      Known-append_once ids s.failed_task_ids v,
    )
task-ListsOk ids s e s' t _ h ph known k = cc

-- So does a run event.
pub run-ListsOk :
    (ids : List String) (s : RunState) (e : DomainEvent) (s' : RunState)
    → Effect s e s'
    → event_task_id e ≡ none
    → ((r : String) (p : Plan) → e ≢ run_planned r p)
    → ListsOk ids s
    → ListsOk ids s'
run-ListsOk ids s e s' (Effect.planned r p created own) h np k = absurd (np r p refl)
run-ListsOk ids s e s' (Effect.started r planned) h np k = ground arith
run-ListsOk ids s e s' (Effect.completed r run) h np k = ground arith
run-ListsOk ids s e s' (Effect.run_failed r run) h np k = ground arith
run-ListsOk ids s e s' _ h np k = cc

pub planned-ListsOk :
    (ids ids' : List String) (s : RunState) (r : String) (p : Plan) (s' : RunState)
    → Effect s (run_planned r p) s'
    → ListsOk ids s
    → ListsOk ids' s'
planned-ListsOk ids ids' s r p s' (Effect.planned _ _ created own) k = ground arith
