-- ===== src/Tasks/ManagerTask.antt =====
-- include/task_base/task_manager.hpp and src/task_base/task_manager.cpp: `manager_task`, which asks
-- the other tasks for a sign of life and restarts those that gave none.
use dbwrapper.Prelude.{
  ℕ, Bool, true, false, List, [], ◌∷◌, ◌++◌, Option, none, some, if◌then◌else◌, map,
}
use dbwrapper.Prelude.Order.{string_eqb}
use dbwrapper.Prelude.OrderedMap.{find, assign}
use dbwrapper.Tasks.Message.{
  TaskMsg, empty, text, format_raw, raw, add_conn_payload, is_hb_rsp, task0,
}
use dbwrapper.Tasks.Task.{EventFd, Task, HbState, manager, worker}
use dbwrapper.Tasks.TaskManager.{TaskManager, with_task, send_hb_all}

-- `on_message`; none when the cast of the body throws.
unfoldable pub manager_on_message : TaskMsg → HbState → Option HbState
unfolding assign
manager_on_message m h =
    if is_hb_rsp m.type
    then elim m.body [
      | text name ↦ some (record h { hb_map = assign name true h.hb_map })
      | empty ↦ none
      | format_raw _ ↦ none
      | raw _ ↦ none
      | add_conn_payload _ ↦ none
    ]
    else some h

module _ {F W : Type 0} where
  -- The loop over `hb_map` in the function of the timer, and whether it came to its end.
  unfoldable pub check_responses : List (List ℕ × Bool) → TaskManager F W → Bool × TaskManager F W
  unfolding find
  check_responses [] s = (true, s)
  check_responses ((name, answered) ∷ m) s =
      let rest = check_responses m s in
      let restarted = check_responses m (record s { restarts = s.restarts ++ name ∷ [] }) in
      if string_eqb name task0
      then rest
      else if answered
      then rest
      else elim (find name s.task_map) [ none ↦ (false, s) | some _ ↦ restarted ]

  -- `hb_map` after the check: every task, none of which has answered.
  unfoldable pub unanswered : List (List ℕ × Task F W) → List (List ℕ × Bool)
  unanswered m = map (λ e. (e.0, false)) m

  abbrev pub with_hb : HbState → Task F W → Task F W
  with_hb h t = record t { kind = manager h }

module _ {F W : Type 0} (E : EventFd F) where
  -- The function of the timer, on the members of the task and the manager of the tasks.
  unfoldable pub hb_round : HbState → TaskManager F W → HbState × TaskManager F W
  unfolding check_responses unanswered send_hb_all
  hb_round h s =
      if h.first_loop
      then (record h { first_loop = false }, s)
      else (let checked = check_responses h.hb_map s in
          if checked.0
          then (record h { hb_map = unanswered s.task_map }, send_hb_all E checked.1)
          else (h, checked.1))

  -- A timer of TASK0 fires.
  unfoldable pub hb_timer_fires : TaskManager F W → TaskManager F W
  unfolding hb_round find
  hb_timer_fires s = elim (find task0 s.task_map) [
    | none ↦ s
    | some t ↦ elim t.kind [
      | worker _ ↦ s
      | manager h ↦ let r = hb_round h s in with_task task0 (with_hb r.0) r.1
    ]
  ]
