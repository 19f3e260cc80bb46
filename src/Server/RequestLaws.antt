-- ===== src/Server/RequestLaws.antt =====
-- The handlers of basic_handlers.go do what the requests mean.
use gomq.Server.Session.{Session}
