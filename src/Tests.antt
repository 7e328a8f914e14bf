-- ===== src/Tests.antt =====
-- Concrete instances of the parameters, and the theorems applied to concrete inputs.
pub mod Instances
mod CryptoRuns
mod RequestRuns
mod LogoutRuns
mod GateRuns
mod SessionRuns
mod JournalRuns
mod LoginRuns
mod TlsRuns
pub mod ClientRuns
mod DeviceRuns
mod VerifierRuns
pub mod Sessions
pub mod Logins
