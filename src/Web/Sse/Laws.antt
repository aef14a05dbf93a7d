-- ===== src/Web/Sse/Laws.antt =====
-- Which requests get a connection.
use configcat_proxy.Base.{string_eq}
