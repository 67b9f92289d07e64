-- ===== src/Redis/Worker.antt =====
-- include/adapter/redis/worker_task.hpp: `worker_task`, the task that holds the connection to Redis.
-- hiredis is not part of the repository's code: `Hiredis` has the calls that are made of it, on a
-- state `X`, in which a context is an address.
use dbwrapper.Prelude.{ℕ, ℤ, Bool, true, false, List, [], Option, none, some, if◌then◌else◌}
use dbwrapper.Prelude.OrderedMap.{find}
use dbwrapper.Tasks.Message.{
  TaskMsg, task_redis_format_raw, task_redis_raw, task_redis_add_conn, RawMsg, AddConnPayload,
  empty, text, format_raw, raw, add_conn_payload,
}
use dbwrapper.Tasks.Task.{Task, manager, worker, new_task}
use dbwrapper.Tasks.TaskManager.{TaskManager, with_task}

pub record Hiredis (X : Type 0) : Type 0 where
  -- `redisAsyncConnect`, which returns a context, and `err` of a context.
  pub connect : List ℕ → ℤ → X → ℕ × X
  pub err : ℕ → X → Bool
  -- `c.tcp.host` and `c.tcp.port` of a context, none once it is freed.
  pub tcp : ℕ → X → Option (List ℕ × ℤ)
  -- `redisLibeventAttach`
  pub attach : ℕ → X → X
  pub set_connect_callback : ℕ → ℕ → X → X
  pub set_disconnect_callback : ℕ → ℕ → X → X
  -- `redisAsyncFormattedCommand` and `redisAsyncCommand`: the context, the callback, its data, the text.
  pub formatted_command : ℕ → ℕ → ℕ → List ℕ → X → X
  pub command : ℕ → ℕ → ℕ → List ℕ → X → X

pub data ConnStatus : Type 0 where
  connected connecting disconnected : ConnStatus

-- `context` is none before it is set, when the code leaves it uninitialised. `reconnects` are the
-- timers that will connect again, each with its context. `hiredis` is what the library holds for the
-- loop of this task.
pub record Worker (X : Type 0) : Type 0 where
  pub conn_stat : ConnStatus
  pub context : Option ℕ
  pub connect_cb : ℕ
  pub disconnect_cb : ℕ
  pub reconnects : List (ℕ × ℕ)
  pub hiredis : X

-- The addresses of `connectCallback` and `disconnectCallback`.
pub record Callbacks : Type 0 where
  pub on_connect : ℕ
  pub on_disconnect : ℕ

module _ {F X : Type 0} where
  -- `worker_task(name)`
  unfoldable pub new_worker_task : Callbacks → X → List ℕ → ℕ → Task F (Worker X)
  unfolding new_task
  new_worker_task cbs x name residue = new_task name residue (
      worker (record {
        conn_stat = disconnected;
        context = none;
        connect_cb = cbs.on_connect;
        disconnect_cb = cbs.on_disconnect;
        reconnects = [];
        hiredis = x;
      }))

  abbrev pub with_worker : Worker X → Task F (Worker X) → Task F (Worker X)
  with_worker w t = record t { kind = worker w }

-- `set_conn_stat`, `set_connect_cb` and `set_disconnect_cb`
module _ {X : Type 0} where
  unfoldable pub set_conn_stat : ConnStatus → Worker X → Worker X
  set_conn_stat stat w = record w { conn_stat = stat }

  unfoldable pub set_connect_cb : ℕ → Worker X → Worker X
  set_connect_cb cb w = record w { connect_cb = cb }

  unfoldable pub set_disconnect_cb : ℕ → Worker X → Worker X
  set_disconnect_cb cb w = record w { disconnect_cb = cb }

module _ {F X : Type 0} (H : Hiredis X) where
  -- `process_add_conn`, with the value that it returns, which `on_message` drops.
  unfoldable pub process_add_conn :
      AddConnPayload → Worker X → Task F (Worker X) → Bool × Task F (Worker X)
  unfolding set_conn_stat
  process_add_conn payload w t =
      let (c, x) = H.connect payload.ip payload.port w.hiredis in
      let w' = record (set_conn_stat connecting w) { context = some c; hiredis = x } in
      let x' =
        H.set_disconnect_callback c w.disconnect_cb
          (H.set_connect_callback c w.connect_cb (H.attach c x)) in
      if H.err c x
      then (false, with_worker w' t)
      else (true, record (with_worker (record w' { hiredis = x' }) t) { detail_info = c })

  -- A command through the context; none when there is none.
  abbrev pub send_through :
      (ℕ → ℕ → ℕ → List ℕ → X → X)
      → RawMsg
      → Worker X
      → Task F (Worker X)
      → Option (Task F (Worker X))
  send_through call msg w t = elim w.context [
    | none ↦ none
    | some c ↦
        some (with_worker (record w { hiredis = call c msg.cb msg.usr_data msg.body w.hiredis }) t)
  ]

  -- The cases of `on_message`; none when the cast of the body throws, or without a context.
  unfoldable pub worker_on_message :
      TaskMsg → Worker X → Task F (Worker X) → Option (Task F (Worker X))
  unfolding process_add_conn
  worker_on_message m w t = elim m.type [
    | task_redis_format_raw ↦ elim m.body [
      | format_raw msg ↦ send_through H.formatted_command msg w t
      | empty ↦ none
      | text _ ↦ none
      | raw _ ↦ none
      | add_conn_payload _ ↦ none
    ]
    | task_redis_raw ↦ elim m.body [
      | raw msg ↦ send_through H.command msg w t
      | empty ↦ none
      | text _ ↦ none
      | format_raw _ ↦ none
      | add_conn_payload _ ↦ none
    ]
    | task_redis_add_conn ↦ elim m.body [
      | add_conn_payload payload ↦ some (process_add_conn payload w t).1
      | empty ↦ none
      | text _ ↦ none
      | format_raw _ ↦ none
      | raw _ ↦ none
    ]
    | _ ↦ some t
  ]

  -- `on_message` as `process_msg` calls it, for the task of the name.
  unfoldable pub handle_message :
      List ℕ → TaskMsg → TaskManager F (Worker X) → Option (TaskManager F (Worker X))
  unfolding find worker_on_message
  handle_message name m s = elim (find name s.task_map) [
    | none ↦ none
    | some t ↦ elim t.kind [
      | manager _ ↦ none
      | worker w ↦ elim (worker_on_message m w t) [
        | none ↦ none
        | some t' ↦ some (with_task name (λ _. t') s)
      ]
    ]
  ]
