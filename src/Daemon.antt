-- ===== src/Daemon.antt =====
-- src/umlplug/daemon_user.c, daemon.h and net_user.h: the connection to the UML switch of tincd.
-- What the kernel and the C library answer is given by parameters (`Os`).
pub mod Os
pub mod Net
pub mod Switch
pub mod Info
