-- ===== src/Redis/Client.antt =====
-- include/adapter/redis/interface.hpp: `redis_async_client`, whose member `ins` is the manager of the
-- tasks. Every call returns true.
use dbwrapper.Prelude.{ℕ, ℤ, Bool, true, List, codes, Option}
use dbwrapper.Tasks.Message.{
  task_redis_put, task_redis_raw, task_redis_format_raw, task_redis_add_conn, RawMsg,
  AddConnPayload, format_raw, raw, add_conn_payload,
}
use dbwrapper.Tasks.Task.{EventFd}
use dbwrapper.Tasks.TaskManager.{TaskManager, add_tasks, init_all, send_parts}
use dbwrapper.Redis.Command.{get_format_command}
use dbwrapper.Redis.Worker.{Worker, Callbacks, new_worker_task}

abbrev pub worker001 : List ℕ
worker001 = codes "WORKER001"

module _ {F X : Type 0} where
  -- `init`, with what the system gives to the tasks that it starts (`init_all`).
  unfoldable pub init :
      (List ℕ → Option F)
      → (List ℕ → Bool)
      → (List ℕ → ℕ)
      → ℕ
      → Callbacks
      → X
      → TaskManager F (Worker X)
      → TaskManager F (Worker X)
  unfolding add_tasks init_all new_worker_task
  init opened served at residue cbs x s =
      init_all opened served at residue (add_tasks (new_worker_task cbs x worker001 residue) s)

module _ {F X : Type 0} (E : EventFd F) where
  unfoldable pub send_format_raw_command :
      List ℕ → ℕ → ℕ → TaskManager F (Worker X) → Bool × TaskManager F (Worker X)
  unfolding send_parts
  send_format_raw_command command usr_data fn s =
      let msg : RawMsg = record { usr_data = usr_data; cb = fn; body = command } in
      (true, (send_parts E worker001 task_redis_format_raw (format_raw msg) 0 s).1)

  unfoldable pub send_raw_command :
      List ℕ → ℕ → ℕ → TaskManager F (Worker X) → Bool × TaskManager F (Worker X)
  unfolding send_parts
  send_raw_command command usr_data fn s =
      let msg : RawMsg = record { usr_data = usr_data; cb = fn; body = command } in
      (true, (send_parts E worker001 task_redis_raw (raw msg) 0 s).1)

  unfoldable pub add_conn : List ℕ → ℤ → TaskManager F (Worker X) → Bool × TaskManager F (Worker X)
  unfolding send_parts
  add_conn ip port s =
      let add_cmd : AddConnPayload = record { ip = ip; port = port } in
      (true, (send_parts E worker001 task_redis_add_conn (add_conn_payload add_cmd) 0 s).1)

  unfoldable pub put :
      List ℕ → List ℕ → ℕ → ℕ → TaskManager F (Worker X) → Bool × TaskManager F (Worker X)
  unfolding get_format_command send_format_raw_command
  put key value usr_data fn s =
      send_format_raw_command (get_format_command task_redis_put key value) usr_data fn s
