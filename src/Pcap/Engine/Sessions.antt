-- ===== src/Pcap/Engine/Sessions.antt =====
-- The ids that `PcapEngine` gives to the sessions of a capture.
use avraham_sql_tools.Base.{ℕ, ◌^◌, Option, none, some, All, ◌<◌, ◌≤◌}
use avraham_sql_tools.Pcap.Engine.{PcapEngine}

-- A server's thread id, where it is known, has 32 bits.
abbrev pub IsThreadId : Option ℕ → Type 0
IsThreadId none = Unit
IsThreadId (some t) = t < 2 ^ 32

-- The synthetic ids that are still to come are above the ids in use, and above each thread id.
abbrev pub IsFresh : PcapEngine → Type 0
IsFresh eng = All (λ x. x < eng.synthetic_next) eng.used_session_ids × (2 ^ 48 ≤ eng.synthetic_next)
