-- ===== src/Redis/Pipeline.antt =====
-- Calls of `put` and runs of the worker's `process_msg`, in any order.
use mathlib.Core.Path.{subst}
use mathlib.Core.List.{map-append}
use dbwrapper.Prelude.{
  ℕ, ◌≡◌, ◌∙◌, ap, sym, refl, List, [], ◌∷◌, ◌++◌, Option, none, some, arith, map, length,
}
use dbwrapper.Prelude.Order.{string_eqb_refl}
use dbwrapper.Prelude.OrderedMap.{find, find-adjust}
use dbwrapper.Tasks.Message.{TaskMsg, RawMsg}
use dbwrapper.Tasks.Task.{EventFd, Task, worker, swap_queues, in_queue}
use dbwrapper.Tasks.TaskManager.{TaskManager, with_task, send_parts, deliver_to, write_one}
use dbwrapper.Tasks.Processing.{process_all, process_msg}
use dbwrapper.Tasks.Rounds.{send2task-task_map}
use dbwrapper.Redis.Command.{get_format_command}
use dbwrapper.Redis.Worker.{Hiredis, Worker, with_worker, handle_message}
use dbwrapper.Redis.Client.{worker001, put, send_format_raw_command}
use dbwrapper.Redis.Delivery.{issue_all, process_one-task}
use dbwrapper.Redis.Pipe.{
  Call, argv_of, command_of, message_of, Turn, puts, works, Pipe, pipe_step, pipe, calls,
  pipe-calls, read_commands, wire, read_commands-wire,
}

module _ {F X : Type 0} (E : EventFd F) (H : Hiredis X) where
  unfoldable pub run_turns :
      List Turn → TaskManager F (Worker X) → Option (TaskManager F (Worker X))
  run_turns [] s = some s
  run_turns (puts a ∷ ts) s = run_turns ts (put E a.key a.value a.usr_data a.fn s).1
  run_turns (works ∷ ts) s = elim (process_msg E (handle_message H) worker001 s) [
    | none ↦ none
    | some s' ↦ run_turns ts s'
  ]

  -- The worker with its context, and its two queues.
  pub record Holds (c : ℕ) (x : X) (queue taken : List TaskMsg) (s : TaskManager F (Worker X))
      : Type 0 where
    pub task : Task F (Worker X)
    pub state : Worker X
    pub found : find worker001 s.task_map ≡ some task
    pub works : task.kind ≡ worker state
    pub context : state.context ≡ some c
    pub hiredis : state.hiredis ≡ x
    pub queued : task.task_queue ≡ queue
    pub took : task.tmp_task_queue ≡ taken

  deliver_to-kept :
      (m : TaskMsg) (t : Task F (Worker X))
      → let t' = (deliver_to E m t).1 in
        (t'.kind ≡ t.kind)
        × (t'.task_queue ≡ t.task_queue ++ m ∷ [])
        × (t'.tmp_task_queue ≡ t.tmp_task_queue)
  unfolding deliver_to write_one in_queue
  deliver_to-kept m t = (ground arith, ground arith, ground arith)

  put-Holds :
      (a : Call) (c : ℕ) (x : X) (q : List TaskMsg) (s : TaskManager F (Worker X))
      → Holds c x q [] s
      → Holds c x (q ++ message_of a ∷ []) [] (put E a.key a.value a.usr_data a.fn s).1
  unfolding put send_format_raw_command send_parts get_format_command
  put-Holds a c x q s h =
      let m = message_of a in
      record {
        task = (deliver_to E m h.task).1;
        state = h.state;
        found =
            rw
              (
                send2task-task_map E worker001 m s,
                find-adjust worker001 worker001 (λ t. (deliver_to E m t).1) s.task_map,
                h.found,
                string_eqb_refl worker001,
              )
              refl;
        works = (deliver_to-kept m h.task).0 ∙ h.works;
        context = h.context;
        hiredis = h.hiredis;
        queued = (deliver_to-kept m h.task).1 ∙ ap (λ l. l ++ m ∷ []) h.queued;
        took = (deliver_to-kept m h.task).2 ∙ h.took;
      }

  process_all-Holds :
      (l : List Call) (c : ℕ) (x : X) (s : TaskManager F (Worker X))
      → Holds c x [] (map message_of l) s
      → (s' : TaskManager F (Worker X)) × (process_all E
            (handle_message H)
            worker001
            (map message_of l)
            s
          ≡ some s')
        × Holds c (issue_all H c (map command_of l) x) [] [] s'
  unfolding process_all
  process_all-Holds [] c x s h = (s, refl, h)
  process_all-Holds (a ∷ l) c x s h =
      let m = command_of a in
      let w' : Worker X = record h.state {
        hiredis = H.formatted_command c m.cb m.usr_data m.body h.state.hiredis;
      } in
      let (s1, one, at) =
        process_one-task E H worker001 c m (map message_of l) s h.task h.state h.found h.works
          h.context in
      let held : Holds c (H.formatted_command c m.cb m.usr_data m.body x) [] (map message_of l) s1 =
        record {
          task = record (with_worker w' h.task) { tmp_task_queue = map message_of l };
          state = w';
          found = at;
          works = refl;
          context = h.context;
          hiredis = ap (H.formatted_command c m.cb m.usr_data m.body) h.hiredis;
          queued = h.queued;
          took = refl;
        } in
      let (s2, rest, g) =
        process_all-Holds l c (H.formatted_command c m.cb m.usr_data m.body x) s1 held in
      (s2, rw (process_all, one) rest, g)

  works-Holds :
      (l : List Call) (c : ℕ) (x : X) (s : TaskManager F (Worker X))
      → Holds c x (map message_of l) [] s
      → (s' : TaskManager F (Worker X)) × (process_msg E (handle_message H) worker001 s ≡ some s')
        × Holds c (issue_all H c (map command_of l) x) [] [] s'
  unfolding process_msg swap_queues
  works-Holds l c x s h =
      let swapped = with_task worker001 swap_queues s in
      let (s', all, g) = process_all-Holds l c x swapped (record {
        task = swap_queues h.task;
        state = h.state;
        found =
            rw
              (
                find-adjust worker001 worker001 swap_queues s.task_map,
                h.found,
                string_eqb_refl worker001,
              )
              refl;
        works = h.works;
        context = h.context;
        hiredis = h.hiredis;
        queued = h.took;
        took = h.queued;
      }) in
      let run : process_msg E (handle_message H) worker001 s
          ≡ process_all E (handle_message H) worker001 h.task.task_queue swapped =
        rw (process_msg, h.found) refl in
      (s', run ∙ ap (λ q. process_all E (handle_message H) worker001 q swapped) h.queued ∙ all, g)

  issue_all-append :
      (c : ℕ) (ms ns : List RawMsg) (x : X)
      → issue_all H c (ms ++ ns) x ≡ issue_all H c ns (issue_all H c ms x)
  issue_all-append c [] ns x = refl
  issue_all-append c (m ∷ ms) ns x =
      issue_all-append c ms ns (H.formatted_command c m.cb m.usr_data m.body x)

  -- The tasks refine a pipe.
  abbrev pub Refines : ℕ → X → Pipe → TaskManager F (Worker X) → Type 0
  Refines c x p s =
      Holds c (issue_all H c (map command_of p.issued) x) (map message_of p.waiting) [] s

  run_turns-Refines :
      (ts : List Turn) (c : ℕ) (x : X) (p : Pipe) (s : TaskManager F (Worker X))
      → Refines c x p s
      → (s' : TaskManager F (Worker X)) × (run_turns ts s ≡ some s') × Refines c x (pipe ts p) s'
  unfolding run_turns
  run_turns-Refines [] c x p s h = (s, refl, h)
  run_turns-Refines (puts a ∷ ts) c x p s h = run_turns-Refines ts c x (pipe_step (puts a) p) _ (
      subst
        (λ q.
          Holds c (issue_all H c (map command_of p.issued) x) q []
            (put E a.key a.value a.usr_data a.fn s).1)
        (sym (map-append message_of p.waiting (a ∷ []))) (put-Holds a c _ _ s h))
  run_turns-Refines (works ∷ ts) c x p s h =
      let (s1, one, h1) = works-Holds p.waiting c _ s h in
      let same : issue_all H c (map command_of (p.issued ++ p.waiting)) x
          ≡ issue_all H c (map command_of p.waiting) (issue_all H c (map command_of p.issued) x) =
        ap (λ ms. issue_all H c ms x) (map-append command_of p.issued p.waiting)
        ∙ issue_all-append c (map command_of p.issued) (map command_of p.waiting) x in
      let (s2, rest, h2) =
        run_turns-Refines ts c x (pipe_step works p) s1
          (subst (λ y. Holds c y [] [] s1) (sym same) h1) in
      (s2, rw (run_turns, one) rest, h2)

  -- From a connected worker with empty queues, any calls of `put`, with runs of the worker anywhere
  -- between them, succeed. hiredis then holds exactly the commands of the calls before the last run, in
  -- the order of the calls, each with its callback and data, through the worker's context; the other
  -- calls wait in the queue; and a server that reads the issued commands off the wire gets a SET with
  -- the key and the value of each call, and nothing more.
  pub run_turns-pipe :
      (ts : List Turn) (c : ℕ) (x : X) (s : TaskManager F (Worker X))
      → Holds c x [] [] s
      → let p = pipe ts (record { issued = []; waiting = [] }) in
        (s' : TaskManager F (Worker X)) × (run_turns ts s ≡ some s')
        × Holds c (issue_all H c (map command_of p.issued) x) (map message_of p.waiting) [] s'
        × (p.issued ++ p.waiting ≡ calls ts)
        × (read_commands (length p.issued) (wire (map command_of p.issued))
            ≡ some (map argv_of p.issued, []))
  run_turns-pipe ts c x s h =
      let start : Pipe = record { issued = []; waiting = [] } in
      let (s', run, r) = run_turns-Refines ts c x start s h in
      (s', run, r, pipe-calls ts start, read_commands-wire (pipe ts start).issued)
