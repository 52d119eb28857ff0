-- ===== src/Container.antt =====
-- src/container.h and src/container.cpp, in parts.
pub mod TaskData
pub mod SetTask
pub mod WaitForSlave
pub mod Slave
pub mod Environment
pub mod Rights
pub mod Serve
pub mod Root
pub mod Start
