-- ===== src/Redis/Client/Window.antt =====
-- The minutes that `GetCallsPerMinute` of internal/redis/client.go reports.
use llmwatch.Redis.Server.{Server}
