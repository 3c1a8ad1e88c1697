-- ===== src/Network/Hub/Stale.antt =====
-- networking/server.go, `run` and `read`: interests of a client that the hub has lost track of.
use dexmd.Network.Hub.{Hub}
use dexmd.Base.{bytes_eq, nat_eq}
