-- ===== src/Examples.antt =====
-- The theorems at concrete inputs, and runs of the definitions.
mod Keys
mod Redirections
mod Outside
mod Commands
mod Lost
mod Clusters
mod Asyncs
mod Waits
mod Pools
mod Sockets
mod Links
