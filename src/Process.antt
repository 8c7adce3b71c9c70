-- ===== src/Process.antt =====
-- internal/services/process: the processes that the agent runs, and the channels that carry what
-- they write.
pub mod Multiplex
pub mod Handler
