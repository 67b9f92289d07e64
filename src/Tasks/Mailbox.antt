-- ===== src/Tasks/Mailbox.antt =====
-- include/task_base/task_manager.hpp (`send2task`) and src/task_base/task_base.cpp (`evfdCallback`,
-- `process_msg`): the queue of one task under the threads that send to it and the one that reads. A
-- sender puts its message under the mutex and then writes to the eventfd; the reader reads the
-- eventfd, swaps the queues under the mutex, and handles the messages one after another.
pub use dbwrapper.Translib.EventFd.{IsEventFd}
use dbwrapper.Prelude.{ℕ, ◌+◌, ◌-◌, ◌<◌, ◌≡◌, Bool, true, false, List, [], ◌∷◌, ◌++◌, some}
use dbwrapper.Tasks.Message.{TaskMsg}
use dbwrapper.Tasks.Task.{EventFd, Task, Kind, new_task, in_queue, swap_queues}
use dbwrapper.Tasks.TaskManager.{write_one}

-- `senders` have put a message and not written yet; `woken` holds between the reader's `read` and its
-- `swap`; `sent` and `handled` are the messages so far, in order.
pub record Mailbox (F W : Type 0) : Type 0 where
  pub task : Task F W
  pub senders : ℕ
  pub woken : Bool
  pub sent : List TaskMsg
  pub handled : List TaskMsg

module _ {F W : Type 0} where
  -- A task that `init` gave the eventfd `f`.
  unfoldable pub new_mailbox : F → List ℕ → ℕ → Kind W → Mailbox F W
  unfolding new_task
  new_mailbox f name residue kind = record {
    task = record (new_task name residue kind) { evfd = some f };
    senders = 0;
    woken = false;
    sent = [];
    handled = [];
  }

  unfoldable pub put_message : TaskMsg → Mailbox F W → Mailbox F W
  unfolding in_queue
  put_message m b = record b {
    task = in_queue m b.task;
    senders = b.senders + 1;
    sent = b.sent ++ m ∷ [];
  }

  unfoldable pub read_event : F → Mailbox F W → Mailbox F W
  read_event f b = record b { task = record b.task { evfd = some f }; woken = true }

  unfoldable pub take_queue : Mailbox F W → Mailbox F W
  unfolding swap_queues
  take_queue b = record b { task = swap_queues b.task; woken = false }

  unfoldable pub handle_front : TaskMsg → List TaskMsg → Mailbox F W → Mailbox F W
  handle_front m ms b = record b {
    task = record b.task { tmp_task_queue = ms };
    handled = b.handled ++ m ∷ [];
  }

module _ {F W : Type 0} (E : EventFd F) where
  unfoldable pub write_event : Mailbox F W → Mailbox F W
  unfolding write_one
  write_event b = record b { task = (write_one E b.task).1; senders = b.senders - 1 }

  pub data MailStep : Mailbox F W → Mailbox F W → Type 0 where
    puts : (m : TaskMsg) (b : Mailbox F W) → MailStep b (put_message m b)
    writes : (b : Mailbox F W) → 0 < b.senders → MailStep b (write_event b)
    reads :
        (b : Mailbox F W) (f f' : F) (n : ℕ)
        → b.woken ≡ false
        → b.task.tmp_task_queue ≡ []
        → b.task.evfd ≡ some f
        → E.read f ≡ some (n, f')
        → MailStep b (read_event f' b)
    takes : (b : Mailbox F W) → b.woken ≡ true → MailStep b (take_queue b)
    handles :
        (m : TaskMsg) (ms : List TaskMsg) (b : Mailbox F W)
        → b.woken ≡ false
        → b.task.tmp_task_queue ≡ m ∷ ms
        → MailStep b (handle_front m ms b)

  pub data MailReach (b0 : Mailbox F W) : Mailbox F W → Type 0 where
    start : MailReach b0 b0
    later : {b b' : Mailbox F W} → MailReach b0 b → MailStep b b' → MailReach b0 b'
