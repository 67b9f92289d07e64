-- ===== src/Tasks/Examples.antt =====
-- Runs of include/task_base on two tasks, with a counter in place of an eventfd, and the theorems there.
use dbwrapper.Prelude.{
  ℕ, zero, suc, ◌≡◌, refl, true, false, [], ◌∷◌, ◌++◌, none, some, arith, codes,
}
use dbwrapper.Prelude.Order.{string_eqb, string_ltb}
use dbwrapper.Prelude.OrderedMap.{find}
use dbwrapper.Tasks.Message.{TaskMsg, task0, task_put, empty}
use dbwrapper.Tasks.Task.{EventFd, Task, HbState, manager, worker, new_task}
use dbwrapper.Tasks.TaskManager.{TaskManager, new_task_manager, send_hb_all, hb_req}
use dbwrapper.Tasks.ManagerTask.{hb_round}
use dbwrapper.Tasks.Processing.{process_msg}
use dbwrapper.Tasks.Rounds.{queue_of, send_hb_all-requests}
use dbwrapper.Tasks.Stalled.{timer_fires, hb_run, hb_run-stalled}
use dbwrapper.Tasks.Answers.{hb_of}
use dbwrapper.Tasks.Alive.{process_tasks, hb_round-alive}
use dbwrapper.Tasks.Mailbox.{
  Mailbox, IsEventFd, MailStep, MailReach, start, later, puts, writes, new_mailbox, put_message,
  write_event,
}
use dbwrapper.Tasks.Wakeups.{MailReach-order, MailReach-wakes}

abbrev counter : EventFd ℕ
counter = record {
  write = λ n. some (suc n);
  read = λ n. elim n [ zero ↦ none | suc m ↦ some (suc m, 0) ];
}

counter-read : (f f' n : ℕ) → counter.read f ≡ some (n, f') → (n ≡ f) × (f' ≡ 0)
counter-read zero f' n e = ground arith
counter-read (suc f) f' n e = ground arith

counter-read_none : (f : ℕ) → counter.read f ≡ none → f ≡ 0
counter-read_none zero e = refl
counter-read_none (suc f) e = ground arith

counter-IsEventFd : IsEventFd counter
counter-IsEventFd = record {
  count = λ n. n;
  write-count = λ f f' e. ground arith;
  write-full = λ f e. ground arith;
  read-count = counter-read;
  read-zero = counter-read_none;
}

abbrev a_task : Task ℕ ℕ
a_task = new_task (codes "a") 0 (worker 7)

abbrev manager_state : HbState
manager_state = record {
  hb_map = (codes "a", false) ∷ (task0, false) ∷ [];
  hb_tid = 0;
  hb_timers = [];
  first_loop = false;
}

abbrev manager_task : Task ℕ ℕ
manager_task = new_task task0 0 (manager manager_state)

abbrev two_tasks : TaskManager ℕ ℕ
two_tasks = record new_task_manager { task_map = (codes "a", a_task) ∷ (task0, manager_task) ∷ [] }

send_hb_all-requests_example :
    queue_of (codes "a") (send_hb_all counter two_tasks) ≡ some (hb_req (codes "a") 0 ∷ [])
unfolding new_task_manager new_task string_eqb find
send_hb_all-requests_example = send_hb_all-requests counter (codes "a") two_tasks [] refl

-- The task `a` was deleted while its answer was awaited.
abbrev deleted : TaskManager ℕ ℕ
deleted = record two_tasks { task_map = (task0, manager_task) ∷ [] }

hb_run-stalled_example :
    (hb_run counter (timer_fires ∷ timer_fires ∷ []) (manager_state, deleted)).1.task_map
    ≡ deleted.task_map
unfolding new_task_manager string_eqb find
hb_run-stalled_example =
    hb_run-stalled counter (codes "a") (timer_fires ∷ timer_fires ∷ []) (manager_state, deleted)
      refl (refl, (refl, tt)) (refl, refl, refl)

-- The task `a` has a request in its queue.
abbrev asked : TaskManager ℕ ℕ
asked = record two_tasks {
  task_map =
      (codes "a", record a_task { task_queue = hb_req (codes "a") 5 ∷ [] })
      ∷ (task0, manager_task)
      ∷ [];
}

hb_round-alive_example :
    (s1 : TaskManager ℕ ℕ) × (s2 : TaskManager ℕ ℕ) × (h' : HbState) × (process_tasks counter
        (λ name m s. some s)
        (codes "a" ∷ [])
        asked
      ≡ some s1)
    × (process_msg counter (λ name m s. some s) task0 s1 ≡ some s2)
    × (hb_of s2 ≡ some h')
    × ((hb_round counter h' s2).1.restarts ≡ asked.restarts)
unfolding new_task_manager new_task string_eqb string_ltb find
hb_round-alive_example =
    hb_round-alive counter (λ name m s. some s) (codes "a" ∷ []) [] asked manager_state
      ((refl, (hb_req (codes "a") 5, [], refl, (refl, tt))), tt) (tt, tt)
      (refl, ((refl, tt), (tt, tt)), (refl, (refl, tt))) refl refl tt

abbrev a_message : TaskMsg
a_message = record { type = task_put; seq_id = 1; from = []; to = []; body = empty }

abbrev new_box : Mailbox ℕ ℕ
new_box = new_mailbox 0 (codes "a") 0 (worker 7)

abbrev sent_box : Mailbox ℕ ℕ
sent_box = write_event counter (put_message a_message new_box)

sent_box-MailReach : MailReach counter new_box sent_box
unfolding put_message
sent_box-MailReach =
    later (later start (puts a_message new_box))
      (writes (put_message a_message new_box) (omega arith))

MailReach-order_example :
    sent_box.sent ≡ sent_box.handled ++ (sent_box.task.tmp_task_queue ++ sent_box.task.task_queue)
MailReach-order_example = MailReach-order counter 0 (codes "a") 0 (worker 7) sent_box-MailReach

MailReach-wakes_example : (b' : Mailbox ℕ ℕ) × MailStep counter sent_box b' × (b'.woken ≡ true)
unfolding put_message write_event new_mailbox new_task
MailReach-wakes_example =
    MailReach-wakes counter-IsEventFd 0 (codes "a") 0 (worker 7) sent_box-MailReach refl refl refl
      (λ e. ground arith)
