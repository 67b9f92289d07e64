-- ===== src/Redis/Examples.antt =====
-- Runs of include/adapter/redis on one worker, with a library that only notes its calls, and the
-- theorems there.
use dbwrapper.Prelude.{
  ℕ, ℤ, zero, suc, ◌≡◌, refl, false, List, [], ◌∷◌, ◌++◌, Option, none, some, codes, pos,
}
use dbwrapper.Prelude.Order.{string_eqb}
use dbwrapper.Prelude.OrderedMap.{find}
use dbwrapper.Tasks.Message.{RawMsg, format_raw, task_redis_format_raw}
use dbwrapper.Tasks.Task.{EventFd, Task, worker, new_task}
use dbwrapper.Tasks.TaskManager.{TaskManager, new_task_manager}
use dbwrapper.Redis.Command.{format_command}
use dbwrapper.Redis.Wire.{read_command, read_command-format}
use dbwrapper.Redis.Worker.{Hiredis, Worker, Callbacks, connected, with_worker, worker_on_message}
use dbwrapper.Redis.Reconnect.{worker_with, redis_async_reconnect}
use dbwrapper.Redis.Client.{worker001}
use dbwrapper.Redis.Pipe.{
  Call, argv_of, command_of, message_of, Turn, puts, works, pipe, read_commands, wire,
}
use dbwrapper.Redis.Pipeline.{run_turns, Holds, run_turns-pipe}
use dbwrapper.Redis.Lifecycle.{headed, connected_anew, redis_async_reconnect-lost_context}

abbrev counter : EventFd ℕ
counter = record { write = λ n. some (suc n); read = λ n. some (n, 0) }

-- The state is the addresses of the contexts that were used, the last one first, with a zero in front
-- once the context is freed.
abbrev tcp_of : List ℕ → Option (List ℕ × ℤ)
tcp_of (zero ∷ x) = none
tcp_of _ = some (codes "127.0.0.1", pos 6379)

abbrev noting : Hiredis (List ℕ)
noting = record {
  connect = λ ip port x. (9, x);
  err = λ c x. false;
  tcp = λ c x. tcp_of x;
  attach = λ c x. x;
  set_connect_callback = λ c cb x. x;
  set_disconnect_callback = λ c cb x. x;
  formatted_command = λ c cb usr_data text x. c ∷ x;
  command = λ c cb usr_data text x. c ∷ x;
}

abbrev callbacks : Callbacks
callbacks = record { on_connect = 1; on_disconnect = 2 }

abbrev a_worker : Worker (List ℕ)
a_worker = record {
  conn_stat = connected;
  context = some 4;
  connect_cb = 1;
  disconnect_cb = 2;
  reconnects = [];
  hiredis = [];
}

abbrev a_task : Task ℕ (Worker (List ℕ))
a_task = new_task worker001 4 (worker a_worker)

abbrev no_tasks : TaskManager ℕ (Worker (List ℕ))
no_tasks = new_task_manager

abbrev one_worker : TaskManager ℕ (Worker (List ℕ))
one_worker = record no_tasks { task_map = (worker001, a_task) ∷ [] }

abbrev a_command : RawMsg
a_command = record { usr_data = 0; cb = 3; body = codes "PING" }

read_command-format_example :
    read_command (format_command (codes "GET" ∷ codes "k" ∷ []) ++ codes "*1")
    ≡ some (codes "GET" ∷ codes "k" ∷ [], codes "*1")
read_command-format_example = read_command-format (codes "GET" ∷ codes "k" ∷ []) (codes "*1")

abbrev first_call : Call
first_call = record { key = codes "k"; value = codes "v"; usr_data = 0; fn = 3 }

abbrev turns : List Turn
turns = puts first_call ∷ works ∷ puts first_call ∷ []

run_turns-pipe_example :
    let p = pipe turns (record { issued = []; waiting = [] }) in
    (s' : TaskManager ℕ (Worker (List ℕ))) × (run_turns counter noting turns one_worker ≡ some s')
    × Holds counter noting 4 (4 ∷ []) (message_of first_call ∷ []) [] s'
    × (p.issued ++ p.waiting ≡ first_call ∷ first_call ∷ [])
    × (read_commands 1 (wire (command_of first_call ∷ [])) ≡ some (argv_of first_call ∷ [], []))
unfolding new_task string_eqb find
run_turns-pipe_example = run_turns-pipe counter noting turns 4 [] one_worker (record {
  task = a_task;
  state = a_worker;
  found = refl;
  works = refl;
  context = refl;
  hiredis = refl;
  queued = refl;
  took = refl;
})

redis_async_reconnect-lost_context_example :
    (s' : TaskManager ℕ (Worker (List ℕ))) × (w' : Worker (List ℕ)) × (t' : Task ℕ
      (Worker (List ℕ)))
    × (redis_async_reconnect noting callbacks 4 (headed worker001 4 a_worker a_task [] no_tasks)
        ≡ some s')
    × (worker_with (connected_anew noting callbacks (codes "127.0.0.1") (pos 6379) []).0 s'
        ≡ some (worker001, some (w', t')))
    × (worker_on_message noting
          (record {
            type = task_redis_format_raw;
            seq_id = 8;
            from = [];
            to = [];
            body = format_raw a_command;
          })
          w'
          t'
        ≡ some (with_worker (record w' { hiredis = 4 ∷ w'.hiredis }) t'))
redis_async_reconnect-lost_context_example =
    redis_async_reconnect-lost_context noting callbacks worker001 4 a_worker a_task [] no_tasks
      a_command 8 (codes "127.0.0.1") (pos 6379) refl refl
