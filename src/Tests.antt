-- ===== src/Tests.antt =====
-- Runs of the theorems at concrete inputs.
mod Strings
mod Ids
mod Slave
mod Tasks
mod Requests
mod Workers
mod Binds
mod Boxes
mod Environments
mod Confinement
mod Services
mod Runs
mod Daemons
mod Wire
mod Clients
mod Exchanges
