-- ===== src/Ddi/Poll/Protocol/Polls.antt =====
-- `doPoll` follows the protocol.
use up2date_cpp.Uri.{Uri}
use up2date_cpp.Ddi.Session.Monad.{Session}
use up2date_cpp.Ddi.Poll.Protocol.{Polling}
