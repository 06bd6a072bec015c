-- ===== src/Programs/Unreachable.antt =====
-- The program of the examples when the server cannot be reached (examples/simmobility-example.cc,
-- Broker::start in model/smb_broker.cc, doConnect in model/network/registration.cc).
use sm4ns.JsonLib.{JsonLib}
use sm4ns.Session.{Session}
use sm4ns.Broker.{Broker}
