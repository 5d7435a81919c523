-- ===== src/Calls/Drop/Rejected.antt =====
-- What the rollback of `dropVoicemailForCall` (apps/api/src/dashboard/calls.ts) restores where
-- FreeSWITCH rejects a command.
