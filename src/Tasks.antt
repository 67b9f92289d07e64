-- ===== src/Tasks.antt =====
-- include/task_base and src/task_base: the messages (`Message`), a task with its queue (`Task`), the
-- manager of the tasks (`TaskManager`), the task that watches the others (`ManagerTask`), the
-- processing of messages (`Processing`), and a mailbox under several threads (`Mailbox`).
pub mod Message
pub mod Task
pub mod TaskManager
pub mod ManagerTask
pub mod Processing
mod Interval
pub mod Rounds
mod Stalled
mod Answers
mod Exchange
mod Watch
mod Alive
pub mod Mailbox
mod Wakeups
mod Examples
