-- ===== src/Server/Client.antt =====
-- server/pkg/server/client.go: the operator's client, over a connection of gRPC.
use dummy_cd.Base.{String}
use dummy_cd.Go.{Returned, value, failed, Call}

pub record Client (Conn : Type 0) : Type 0 where
  pub conn : Conn

unfoldable pub client_over : {Conn : Type 0} → Returned Conn → Returned (Client Conn)
client_over (value c) = value (record { conn = c })
client_over (failed e) = failed e

-- `dial` is grpc.Dial with insecure credentials.
unfoldable pub new_server_client :
    {W Conn : Type 0} → (String → Call W Conn) → String → Call W (Client Conn)
unfolding client_over
new_server_client dial address w = (client_over (dial address w).0, (dial address w).1)
