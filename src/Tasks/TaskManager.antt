-- ===== src/Tasks/TaskManager.antt =====
-- include/task_base/task_manager.hpp: `task_manager`. The map holds its tasks; a task that is erased
-- is gone. `restarts` are the calls of the virtual `restart`, by the names of their tasks.
use dbwrapper.Prelude.{
  ℕ, ◌+◌, ◌%◌, ◌^◌, Bool, true, false, List, [], ◌∷◌, Option, none, some, ◌==◌, if◌then◌else◌, map,
}
use dbwrapper.Prelude.Order.{string_eqb}
use dbwrapper.Prelude.OrderedMap.{find, assign, erase, adjust}
use dbwrapper.Tasks.Message.{TaskMsg, MsgType, task_hb_req, Body, text, task0}
use dbwrapper.Tasks.Task.{EventFd, Task, new_manager_task, in_queue, set_hb_interval, init_task}

pub record TaskManager (F W : Type 0) : Type 0 where
  pub hb_itval : ℕ
  pub seq_id : ℕ
  pub task_map : List (List ℕ × Task F W)
  pub restarts : List (List ℕ)

module _ {F W : Type 0} where
  -- `task_manager()`
  unfoldable pub new_task_manager : TaskManager F W
  new_task_manager = record { hb_itval = 5000; seq_id = 0; task_map = []; restarts = [] }

  abbrev pub with_task : List ℕ → (Task F W → Task F W) → TaskManager F W → TaskManager F W
  with_task name f s = record s { task_map = adjust name f s.task_map }

  unfoldable pub add_tasks : Task F W → TaskManager F W → TaskManager F W
  unfolding assign
  add_tasks t s = record s { task_map = assign t.name t s.task_map }

  unfoldable pub del_tasks : List ℕ → TaskManager F W → TaskManager F W
  unfolding erase
  del_tasks name s = record s { task_map = erase name s.task_map }

  -- `get_task_id`: the descriptor of the task, none for -1.
  unfoldable pub get_task_id : List ℕ → TaskManager F W → Option F
  unfolding find
  get_task_id name s = elim (find name s.task_map) [ none ↦ none | some t ↦ t.evfd ]

  -- `get_task_ptr_p_with_detail_info`: the name of the task, or none for null.
  unfoldable pub get_task_ptr_p_with_detail_info : ℕ → TaskManager F W → Option (List ℕ)
  get_task_ptr_p_with_detail_info info s = elim s.task_map [
    | [] ↦ none
    | e ∷ _ ↦ if e.1.detail_info == info then some e.0 else none
  ]

  -- `set_hb_interval`: the parameter hides the member of its name.
  unfoldable pub set_all_hb_interval : ℕ → ℕ → TaskManager F W → TaskManager F W
  unfolding set_hb_interval adjust
  set_all_hb_interval at interval s = with_task task0 (set_hb_interval at interval) s

-- The message that `send_hb_all` sends.
abbrev pub hb_req : List ℕ → ℕ → TaskMsg
hb_req name seq_id = record {
  type = task_hb_req;
  seq_id = seq_id;
  from = [];
  to = [];
  body = text name;
}

module _ {F W : Type 0} (E : EventFd F) where
  -- The write to the eventfd in `send2task`.
  unfoldable pub write_one : Task F W → Bool × Task F W
  write_one t = elim t.evfd [
    | none ↦ (false, t)
    | some f ↦ elim (E.write f) [
      | none ↦ (false, t)
      | some f' ↦ (true, record t { evfd = some f' })
    ]
  ]

  -- What `send2task` does to the task that it finds.
  unfoldable pub deliver_to : TaskMsg → Task F W → Bool × Task F W
  unfolding write_one in_queue
  deliver_to msg t = write_one (in_queue msg t)

  unfoldable pub send2task : List ℕ → TaskMsg → TaskManager F W → Bool × TaskManager F W
  unfolding deliver_to find adjust
  send2task name msg s = elim (find name s.task_map) [
    | none ↦ (false, s)
    | some t ↦ ((deliver_to msg t).0, with_task name (λ t'. (deliver_to msg t').1) s)
  ]

  -- `send2task` with the parts of the message.
  unfoldable pub send_parts : List ℕ → MsgType → Body → ℕ → TaskManager F W → Bool × TaskManager F W
  unfolding send2task
  send_parts name type body seq_id s =
      send2task name (record { type = type; seq_id = seq_id; from = []; to = []; body = body }) s

  -- The loop of `send_hb_all`, over the names in the map.
  unfoldable pub send_hb_to : List (List ℕ) → TaskManager F W → TaskManager F W
  unfolding send_parts
  send_hb_to [] s = s
  send_hb_to (name ∷ names) s =
      let sent = (send_parts name task_hb_req (text name) s.seq_id s).1 in
      send_hb_to names
        (if string_eqb name task0 then s else record sent { seq_id = (s.seq_id + 1) % 2 ^ 32 })

  unfoldable pub send_hb_all : TaskManager F W → TaskManager F W
  unfolding send_hb_to
  send_hb_all s = send_hb_to (map (λ e. e.0) s.task_map) s

module _ {F W : Type 0} (opened : List ℕ → Option F) (served : List ℕ → Bool)
    (at : List ℕ → ℕ) where
  -- `init` of one task of the map, where `eventfd` and the server return what is given for its name.
  abbrev pub init_one : List ℕ → Task F W → Task F W
  init_one name t = (init_task (opened name) (served name) (at name) t).1

  -- The loop of `init`: every task but TASK0 is started.
  unfoldable pub init_others : List (List ℕ × Task F W) → List (List ℕ × Task F W)
  unfolding init_task
  init_others [] = []
  init_others (e ∷ m) =
      (e.0, if string_eqb e.0 task0 then e.1 else init_one e.0 e.1) ∷ init_others m

  -- `init`, which returns true: TASK0 is there, since it was just added.
  unfoldable pub init_all : ℕ → TaskManager F W → TaskManager F W
  unfolding add_tasks init_others init_task set_hb_interval adjust
  init_all residue s =
      let s' = add_tasks (new_manager_task residue) s in
      let m = init_others s'.task_map in
      record s' {
        task_map =
            adjust task0 (init_one task0) (adjust task0 (set_hb_interval (at task0) s'.hb_itval) m);
      }
