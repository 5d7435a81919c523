-- ===== src/Calls.antt =====
-- The calls that the API drives: the tables, the handlers that write them, and what these keep.
pub mod Schema
pub mod Progression
pub mod Availability
pub mod Finalization
pub mod Rows
pub mod Events
pub mod Voicemail
pub mod ManualStatus
pub mod Contacts
pub mod Creation
pub mod Drop
pub mod Dtmf
pub mod Retention
pub mod Hangup
pub mod Repair
pub mod History
pub mod Examples
