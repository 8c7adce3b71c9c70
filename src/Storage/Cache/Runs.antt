-- ===== src/Storage/Cache/Runs.antt =====
-- Any order of calls and of the writes that they leave to the background.
use aether_agent.Storage.Cache.{Cache}
