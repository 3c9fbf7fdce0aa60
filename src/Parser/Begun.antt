-- ===== src/Parser/Begun.antt =====
-- The end of the header, and the body that has arrived with it.
use http_proto.Types.{Header}
use http_proto.Parser.State.{Parser}
