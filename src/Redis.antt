-- ===== src/Redis.antt =====
-- include/adapter/redis and src/adapter/redis/worker_task.cpp, the code over hiredis: the text of a
-- command (`Command`), the worker's task (`Worker`), what hiredis calls when a connection is made or
-- lost (`Reconnect`), and the client (`Client`).
pub mod Command
mod Wire
pub mod Worker
pub mod Reconnect
pub mod Client
mod Lifecycle
mod Delivery
mod Pipe
mod Pipeline
mod Examples
