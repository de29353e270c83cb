-- ===== src/Examples.antt =====
-- Runs of the model at concrete inputs, one module for each part of the program.
mod Domain
mod Authorization
mod Capabilities
mod Admission
mod Output
mod HostAgent
mod Protocol
mod Registry
mod Handshake
mod Cursor
mod JobLog
