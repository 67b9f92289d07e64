-- ===== src/Redis/Delivery.antt =====
-- The way of a command: from the client's call into the queue of the worker, and from there to hiredis.
use mathlib.Core.Path.{subst}
use mathlib.Core.List.{append-nil}
use dbwrapper.Prelude.{ℕ, ◌≡◌, refl, true, List, [], ◌∷◌, ◌++◌, none, some, arith, codes, map}
use dbwrapper.Prelude.Order.{string_eqb_refl}
use dbwrapper.Prelude.OrderedMap.{find, find-adjust}
use dbwrapper.Tasks.Message.{TaskMsg, task_redis_format_raw, RawMsg, format_raw}
use dbwrapper.Tasks.Task.{EventFd, Task, worker}
use dbwrapper.Tasks.TaskManager.{TaskManager, with_task, send_parts, send2task}
use dbwrapper.Tasks.Processing.{on_message, process_one, process_all, pop}
use dbwrapper.Tasks.Rounds.{queue_of, queue_of-send2task}
use dbwrapper.Redis.Command.{get_format_command, format_command}
use dbwrapper.Redis.Wire.{read_command, read_command-format}
use dbwrapper.Redis.Worker.{Hiredis, Worker, with_worker, worker_on_message, handle_message}
use dbwrapper.Redis.Client.{worker001, put, send_format_raw_command}

-- A command as a message.
abbrev pub as_message : RawMsg → TaskMsg
as_message m = record {
  type = task_redis_format_raw;
  seq_id = 0;
  from = [];
  to = [];
  body = format_raw m;
}

module _ {F X : Type 0} (E : EventFd F) where
  -- `put` puts one message behind those of the worker, whose text a server reads as a SET with the key
  -- and the value, whatever bytes they hold, and as nothing more.
  put-queued :
      (key value : List ℕ) (usr_data fn : ℕ) (s : TaskManager F (Worker X)) (q : List TaskMsg)
      → queue_of worker001 s ≡ some q
      → (text : List ℕ) × (queue_of worker001 (put E key value usr_data fn s).1
          ≡ some (
              q
              ++ record {
                type = task_redis_format_raw;
                seq_id = 0;
                from = [];
                to = [];
                body = format_raw (record { usr_data = usr_data; cb = fn; body = text });
              }
                ∷ []))
        × (read_command text ≡ some (codes "SET" ∷ key ∷ value ∷ [], []))
  unfolding put send_format_raw_command send_parts get_format_command
  put-queued key value usr_data fn s q e =
      let argv = codes "SET" ∷ key ∷ value ∷ [] in
      let text = format_command argv in
      let msg : RawMsg = record { usr_data = usr_data; cb = fn; body = text } in
      (
        text,
        rw
            (
              queue_of-send2task E worker001 worker001 (as_message msg) s,
              e,
              string_eqb_refl worker001,
            )
            refl,
        subst (λ x. read_command x ≡ some (argv, [])) (append-nil text)
            (read_command-format argv []),
      )

  -- Without a worker `put` returns true as well, and changes nothing.
  pub put-dropped :
      (key value : List ℕ) (usr_data fn : ℕ) (s : TaskManager F (Worker X))
      → find worker001 s.task_map ≡ none
      → put E key value usr_data fn s ≡ (true, s)
  unfolding put send_format_raw_command send_parts send2task
  put-dropped key value usr_data fn s e =
      rw (put, send_format_raw_command, send_parts, send2task, e) refl

-- What hiredis holds after commands.
abbrev pub issue_all : {X : Type 0} → Hiredis X → ℕ → List RawMsg → X → X
issue_all H c [] x = x
issue_all H c (m ∷ ms) x = issue_all H c ms (H.formatted_command c m.cb m.usr_data m.body x)

module _ {F X : Type 0} (E : EventFd F) (H : Hiredis X) where
  -- The worker of a name, with its context.
  abbrev pub HasWorker : List ℕ → ℕ → X → TaskManager F (Worker X) → Type 0
  HasWorker name c x s =
      (t : Task F (Worker X)) × (w : Worker X) × (find name s.task_map ≡ some t)
      × (t.kind ≡ worker w)
      × (w.context ≡ some c)
      × (w.hiredis ≡ x)

  -- What is left of the task: its worker with the new state of hiredis, and the messages behind.
  pub process_one-task :
      (name : List ℕ) (c : ℕ) (m : RawMsg) (ms : List TaskMsg) (s : TaskManager F (Worker X))
      (t : Task F (Worker X)) (w : Worker X)
      → find name s.task_map ≡ some t
      → t.kind ≡ worker w
      → w.context ≡ some c
      → let w' = record w { hiredis = H.formatted_command c m.cb m.usr_data m.body w.hiredis } in
        (s' : TaskManager F (Worker X)) × (process_one E (handle_message H) name (as_message m) ms s
          ≡ some s')
        × (find name s'.task_map ≡ some (record (with_worker w' t) { tmp_task_queue = ms }))
  unfolding process_one on_message handle_message worker_on_message pop
  process_one-task name c m ms s t w e k g =
      let w' : Worker X = record w {
        hiredis = H.formatted_command c m.cb m.usr_data m.body w.hiredis;
      } in
      let t' : Task F (Worker X) = with_worker w' t in
      let s' = with_task name (λ _. t') s in
      let issued : worker_on_message H (as_message m) w t ≡ some t' = ground arith in
      let done : on_message E (handle_message H) name (as_message m) s ≡ some s' =
        rw (on_message, e, k, handle_message, e, k, issued) refl in
      (
        pop name ms s',
        rw (process_one, done) refl,
        rw
            (
              find-adjust name name (λ t. record t { tmp_task_queue = ms }) s'.task_map,
              find-adjust name name (λ _. t') s.task_map,
              e,
              string_eqb_refl name,
              string_eqb_refl name,
            )
            refl,
      )

  process_one-command :
      (name : List ℕ) (c : ℕ) (x : X) (m : RawMsg) (ms : List TaskMsg)
      (s : TaskManager F (Worker X))
      → HasWorker name c x s
      → (s' : TaskManager F (Worker X)) × (process_one E (handle_message H) name (as_message m) ms s
          ≡ some s')
        × HasWorker name c (H.formatted_command c m.cb m.usr_data m.body x) s'
  process_one-command name c x m ms s (t, w, e, k, g, h) =
      let w' : Worker X = record w {
        hiredis = H.formatted_command c m.cb m.usr_data m.body w.hiredis;
      } in
      let (s', one, at) = process_one-task name c m ms s t w e k g in
      (s', one, (record (with_worker w' t) { tmp_task_queue = ms }, w', at, refl, g, rw h refl))

  -- A connected worker hands all its commands to hiredis, in the order of its queue, each with its
  -- callback and data, through its context.
  process_all-commands :
      (name : List ℕ) (c : ℕ) (ms : List RawMsg) (x : X) (s : TaskManager F (Worker X))
      → HasWorker name c x s
      → (s' : TaskManager F (Worker X)) × (process_all E
            (handle_message H)
            name
            (map as_message ms)
            s
          ≡ some s')
        × HasWorker name c (issue_all H c ms x) s'
  unfolding process_all
  process_all-commands name c [] x s i = (s, refl, i)
  process_all-commands name c (m ∷ ms) x s i =
      let (s1, e1, i1) = process_one-command name c x m (map as_message ms) s i in
      let (s2, e2, i2) =
        process_all-commands name c ms (H.formatted_command c m.cb m.usr_data m.body x) s1 i1 in
      (s2, rw (process_all, e1) e2, i2)
