-- ===== src/TcpSession.antt =====
-- The unfinished session of the TCP side: class TcpSession of inc/tcpSession.h and
-- src/tcpSession.cpp, whose methods are empty. Nothing makes a TcpSession.
use ramses_proxy.Prelude.{Bool}
use ramses_proxy.Packet
use ramses_proxy.Packet.{RouterPacket}

pub record TcpSession : Type 0 where
  pub tcp_packet : RouterPacket

-- TcpSession(ioservice, pSessionManager)
unfoldable pub construct : TcpSession
construct = record { tcp_packet = Packet.construct }

-- start()
unfoldable pub start : TcpSession → TcpSession
start s = s

-- handle_read_header(error)
unfoldable pub handle_read_header : Bool → TcpSession → TcpSession
handle_read_header error s = s

-- handle_read_payload(error)
unfoldable pub handle_read_payload : Bool → TcpSession → TcpSession
handle_read_payload error s = s
