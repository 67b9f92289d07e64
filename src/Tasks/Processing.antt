-- ===== src/Tasks/Processing.antt =====
-- src/task_base/task_base.cpp: `evfdCallback` and `process_msg`. `handle` is the `on_message` of the
-- tasks other than the manager, given the task's name; it returns none when it throws.
use dbwrapper.Prelude.{ℕ, List, [], ◌∷◌, Option, none, some, if◌then◌else◌}
use dbwrapper.Prelude.Order.{string_eqb}
use dbwrapper.Prelude.OrderedMap.{find}
use dbwrapper.Tasks.Message.{TaskMsg, task_hb_rsp, text, is_hb_req, task0}
use dbwrapper.Tasks.Task.{EventFd, manager, worker, swap_queues}
use dbwrapper.Tasks.TaskManager.{TaskManager, with_task, send2task}
use dbwrapper.Tasks.ManagerTask.{manager_on_message, with_hb}

-- The answer to a request: the message with the name of the task.
abbrev pub hb_rsp : List ℕ → TaskMsg → TaskMsg
hb_rsp name m = record m { body = text name; type = task_hb_rsp }

module _ {F W : Type 0} where
  -- The front of the queue is removed, which leaves `ms`.
  unfoldable pub pop : List ℕ → List TaskMsg → TaskManager F W → TaskManager F W
  pop name ms s = with_task name (λ t. record t { tmp_task_queue = ms }) s

module _ {F W : Type 0} (E : EventFd F)
    (handle : List ℕ → TaskMsg → TaskManager F W → Option (TaskManager F W)) where
  unfoldable pub on_message : List ℕ → TaskMsg → TaskManager F W → Option (TaskManager F W)
  unfolding find manager_on_message
  on_message name m s = elim (find name s.task_map) [
    | none ↦ none
    | some t ↦ elim t.kind [
      | worker _ ↦ handle name m s
      | manager h ↦ elim (manager_on_message m h) [
        | none ↦ none
        | some h' ↦ some (with_task name (with_hb h') s)
      ]
    ]
  ]

  -- The body of the loop, for the message at the front of the queue, with `ms` behind it.
  unfoldable pub process_one :
      List ℕ → TaskMsg → List TaskMsg → TaskManager F W → Option (TaskManager F W)
  unfolding on_message send2task
  process_one name m ms s =
      if is_hb_req m.type
      then (if string_eqb name task0
          then on_message name m (pop name ms s)
          else some (send2task E task0 (hb_rsp name m) (pop name ms s)).1)
      else elim (on_message name m s) [ none ↦ none | some s' ↦ some (pop name ms s') ]

  -- The loop of `process_msg` over the queue that its thread took.
  unfoldable pub process_all : List ℕ → List TaskMsg → TaskManager F W → Option (TaskManager F W)
  unfolding process_one
  process_all name [] s = some s
  process_all name (m ∷ ms) s = elim (process_one name m ms s) [
    | none ↦ none
    | some s' ↦ process_all name ms s'
  ]

  unfoldable pub process_msg : List ℕ → TaskManager F W → Option (TaskManager F W)
  unfolding find process_all swap_queues
  process_msg name s = elim (find name s.task_map) [
    | none ↦ none
    | some t ↦ process_all name t.task_queue (with_task name swap_queues s)
  ]

  -- `evfdCallback`, for the task of the name.
  unfoldable pub evfd_callback : List ℕ → TaskManager F W → Option (TaskManager F W)
  unfolding find process_msg
  evfd_callback name s = elim (find name s.task_map) [
    | none ↦ none
    | some t ↦ elim t.evfd [
      | none ↦ some s
      | some f ↦ elim (E.read f) [
        | none ↦ some s
        | some (n, f') ↦ process_msg name (with_task name (λ t'. record t' { evfd = some f' }) s)
      ]
    ]
  ]
