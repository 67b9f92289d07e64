-- ===== src/Redis/Reconnect.antt =====
-- src/adapter/redis/worker_task.cpp: what hiredis calls when a connection is made or lost. `ok` is
-- whether the status is REDIS_OK.
use dbwrapper.Prelude.{ℕ, Bool, true, false, List, [], ◌∷◌, ◌++◌, Option, none, some}
use dbwrapper.Prelude.OrderedMap.{find}
use dbwrapper.Translib.TimerManager.{get_timer}
use dbwrapper.Tasks.Task.{Task, manager, worker}
use dbwrapper.Tasks.TaskManager.{TaskManager, with_task, get_task_ptr_p_with_detail_info}
use dbwrapper.Redis.Worker.{
  Hiredis, Worker, Callbacks, connected, disconnected, with_worker, set_conn_stat,
}

module _ {F X : Type 0} where
  -- What a pointer to a task leads to: none for null, and what the pointer to a worker then gives.
  unfoldable pub worker_with :
      ℕ → TaskManager F (Worker X) → Option (List ℕ × Option (Worker X × Task F (Worker X)))
  unfolding get_task_ptr_p_with_detail_info find
  worker_with c s = elim (get_task_ptr_p_with_detail_info c s) [
    | none ↦ none
    | some name ↦ elim (find name s.task_map) [
      | none ↦ none
      | some t ↦ elim t.kind [ manager _ ↦ some (name, none) | worker w ↦ some (name, some (w, t)) ]
    ]
  ]

module _ {F X : Type 0} (H : Hiredis X) (cbs : Callbacks) where
  -- `redisAsyncReconnect`, which returns REDIS_OK; none when no task is found, whose pointer it
  -- uses, or the context is freed, which it reads.
  unfoldable pub redis_async_reconnect :
      ℕ → TaskManager F (Worker X) → Option (TaskManager F (Worker X))
  unfolding worker_with
  redis_async_reconnect c s = elim (worker_with c s) [
    | none ↦ none
    | some (name, none) ↦ none
    | some (name, some (w, t)) ↦ elim (H.tcp c w.hiredis) [
      | none ↦ none
      | some (host, port) ↦
          let (new_c, x) = H.connect host port w.hiredis in
          let x' =
            H.set_disconnect_callback new_c cbs.on_disconnect
              (H.set_connect_callback new_c cbs.on_connect (H.attach new_c x)) in
          let t' = record (with_worker (record w { hiredis = x' }) t) { detail_info = new_c } in
          some (with_task name (λ _. t') s)
    ]
  ]

module _ {F X : Type 0} where
  -- `connectCallback`
  unfoldable pub connect_callback :
      ℕ → Bool → TaskManager F (Worker X) → Option (TaskManager F (Worker X))
  unfolding worker_with set_conn_stat
  connect_callback c false s = some s
  connect_callback c true s = elim (worker_with c s) [
    | none ↦ some s
    | some (name, none) ↦ none
    | some (name, some (w, t)) ↦ some (with_task name (with_worker (set_conn_stat connected w)) s)
  ]

module _ {F X : Type 0} (H : Hiredis X) (cbs : Callbacks) where
  -- `disconnectCallback`, where a timer that it makes stands at the address `at`.
  unfoldable pub disconnect_callback :
      ℕ → ℕ → Bool → TaskManager F (Worker X) → Option (TaskManager F (Worker X))
  unfolding worker_with redis_async_reconnect set_conn_stat get_timer
  disconnect_callback at c false s = some s
  disconnect_callback at c true s = elim (worker_with c s) [
    | none ↦ redis_async_reconnect H cbs c s
    | some (name, none) ↦ none
    | some (name, some (w, t)) ↦
        let (id, timers) = get_timer at t.timer_mgr in
        let w' = record (set_conn_stat disconnected w) {
          reconnects = w.reconnects ++ (id, c) ∷ [];
        } in
        some (with_task name (λ _. record (with_worker w' t) { timer_mgr = timers }) s)
  ]
