-- ===== src/Tests.antt =====
-- Runs of the definitions at concrete inputs, by component.
mod Secoc
mod Coordinator
mod Vehicle
mod Files
mod Tools
mod Goals
mod Launch
