-- ===== src/Tests.antt =====
-- Runs at concrete inputs, and the theorems applied to them.
mod Redis
mod Tickers
mod Daemons
mod Settings
mod Stamps
mod Hosts
mod Measures
mod Servers
mod Reporters
mod Memory
mod Systems
mod Containers
mod Instruments
mod Environments
mod Traffics
mod Loads
mod Cpu
