-- ===== src/Domain/Coherent/Tasks.antt =====
-- One task of the register through an event of fsasm-first/src/fsasm/domain.py.
use fsasm_training_lab.Prelude.{
  String, ◌≡◌, ◌≢◌, some, [], arith, eq_iff, contains, NoDup, contains-append_once, contains-remove,
}
use fsasm_training_lab.Models.{ChildTask, RunState}
use fsasm_training_lab.Domain.Events.{DomainEvent, event_task_id}
use fsasm_training_lab.Domain.Effect.{Effect, Found}
use fsasm_training_lab.Domain.Frame.{target_change}
use fsasm_training_lab.Domain.Coherent.{TaskOk}

abbrev pub TaskOkOf : RunState → ChildTask → Type 0
TaskOkOf s = TaskOk s.active_task_id s.completed_task_ids s.failed_task_ids s.needs_human_task_ids

-- The task that the event does not name.
pub other-TaskOk :
    (s : RunState) (e : DomainEvent) (s' : RunState) (t : String) (u : ChildTask)
    → Effect s e s'
    → event_task_id e ≡ some t
    → NoDup s.needs_human_task_ids
    → u.task_id ≢ t
    → TaskOkOf s u
    → TaskOkOf s' u
other-TaskOk s e s' t u (Effect.readied r v task found may) h once ne k = k
other-TaskOk s e s' t u (Effect.unblocked r v task found may) h once ne k = k
other-TaskOk s e s' t u (Effect.blocked r v task found may) h once ne k = k
other-TaskOk s e s' t u (Effect.activated r v task found ready free) h once ne k =
    ground (arith, eq_iff u.task_id v)
other-TaskOk s e s' t u (Effect.evidenced r v refs task found) h once ne k = k
other-TaskOk s e s' t u (Effect.passed r v task found stands refs more) h once ne k = ground (
  arith,
  eq_iff v u.task_id,
  eq_iff u.task_id v,
  contains-append_once s.completed_task_ids v u.task_id,
)
other-TaskOk s e s' t u (Effect.passed_last r v task found stands refs last run) h once ne k =
    ground (
      arith,
      eq_iff v u.task_id,
      eq_iff u.task_id v,
      contains-append_once s.completed_task_ids v u.task_id,
    )
other-TaskOk s e s' t u (Effect.failed r v task found stands) h once ne k =
    ground (arith, eq_iff u.task_id v)
other-TaskOk s e s' t u (Effect.retried r v task found may budget) h once ne k = k
other-TaskOk s e s' t u (Effect.escalated r v n task found failed spent) h once ne k = ground (
  arith,
  eq_iff v u.task_id,
  eq_iff u.task_id v,
  contains-append_once s.needs_human_task_ids v u.task_id,
)
other-TaskOk s e s' t u (Effect.decided_retry r v g d n m task gate found stands opened id att app)
      h once ne k =
    ground (arith, eq_iff v u.task_id, contains-remove s.needs_human_task_ids v u.task_id once)
other-TaskOk s e s' t u (Effect.decided_abort r v g d n m task gate found stands opened id att app)
      h once ne k =
    ground (
      arith,
      eq_iff v u.task_id,
      contains-remove s.needs_human_task_ids v u.task_id once,
      contains-append_once s.failed_task_ids v u.task_id,
    )
other-TaskOk s e s' t u _ h once ne k = cc

-- The task that the event names, in a run that has failed no task.
pub target-TaskOk :
    (s : RunState) (e : DomainEvent) (s' : RunState) (t : String) (u : ChildTask)
    → Effect s e s'
    → event_task_id e ≡ some t
    → NoDup s.needs_human_task_ids
    → s.failed_task_ids ≡ []
    → Found s t u
    → u.task_id ≡ t
    → TaskOkOf s u
    → TaskOkOf s' (target_change e u)
unfolding contains
target-TaskOk s e s' t u (Effect.readied r v task found may) h once fresh mine own k = ground arith
target-TaskOk s e s' t u (Effect.unblocked r v task found may) h once fresh mine own k =
    ground arith
target-TaskOk s e s' t u (Effect.blocked r v task found may) h once fresh mine own k = ground arith
target-TaskOk s e s' t u (Effect.activated r v task found ready free) h once fresh mine own k =
    ground arith
target-TaskOk s e s' t u (Effect.evidenced r v refs task found) h once fresh mine own k =
    ground arith
target-TaskOk s e s' t u (Effect.passed r v task found stands refs more) h once fresh mine own k =
    ground (arith, eq_iff u.task_id v, contains-append_once s.completed_task_ids v u.task_id)
target-TaskOk s e s' t u (Effect.passed_last r v task found stands refs last run) h once fresh mine
      own k =
    ground (arith, eq_iff u.task_id v, contains-append_once s.completed_task_ids v u.task_id)
target-TaskOk s e s' t u (Effect.failed r v task found stands) h once fresh mine own k =
    ground (arith, eq_iff u.task_id v)
target-TaskOk s e s' t u (Effect.retried r v task found may budget) h once fresh mine own k =
    ground arith
target-TaskOk s e s' t u (Effect.escalated r v n task found failed spent) h once fresh mine own k =
    ground (arith, eq_iff u.task_id v, contains-append_once s.needs_human_task_ids v u.task_id)
target-TaskOk s e s' t u (Effect.decided_retry r v g d n m task gate found stands opened id att app)
      h once fresh mine own k =
    ground (arith, eq_iff v u.task_id, contains-remove s.needs_human_task_ids v u.task_id once)
target-TaskOk s e s' t u (Effect.decided_abort r v g d n m task gate found stands opened id att app)
      h once fresh mine own k =
    ground (
      arith,
      eq_iff v u.task_id,
      contains-remove s.needs_human_task_ids v u.task_id once,
      contains-append_once s.failed_task_ids v u.task_id,
    )
target-TaskOk s e s' t u _ h once fresh mine own k = cc
