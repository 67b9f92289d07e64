-- ===== src/Translib.antt =====
-- include/translib and src/translib, the wrapper of libevent: loops (`Loop`, `FrameLoop`), a timer
-- (`Timer`), and the manager of the timers (`TimerManager`), a socket (`TcpSocket`), the framing of
-- packets (`Tpkt`), a client (`TcpClient`), a server with its sessions (`TcpServer`), and one of HTTP
-- (`HttpServer`).
pub mod EventFd
pub mod Timer
pub mod TimerManager
pub mod Tpkt
pub mod TcpSocket
pub mod Loop
pub mod FrameLoop
pub mod TcpServer
pub mod TcpClient
pub mod HttpServer
mod Examples
