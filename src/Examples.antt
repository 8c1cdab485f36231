-- ===== src/Examples.antt =====
-- Runs on concrete inputs, and instances of the theorems.
mod Data
mod Leases
mod Runtimes
mod Stores
mod Requests
mod Clients
mod Skills
mod Files
mod Accounts
mod Trees
mod Browsers
mod Services
