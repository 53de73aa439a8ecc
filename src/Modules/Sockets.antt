-- ===== src/Modules/Sockets.antt =====
-- modules/websocket/websocket.go: the frames that pass once both connections are upgraded.
pub mod Relay
pub mod Session
use s_ingress.Common.Texts.{Text}
use s_ingress.Common.{List, Option, [], none, some, ℕ, ◌∷◌}

-- A frame with its message type, as github.com/gorilla/websocket numbers them.
pub record Frame : Type 0 where
  pub message_type : ℕ
  pub payload : Text

-- What the write to the other connection gives: an error may say that it is closed.
pub data Write : Type 0 where
  delivered connection_closed write_failed : Write

-- What a read of one connection gives, with what becomes of the write. The handlers for ping, pong
-- and close run inside of the read, which ends with their error, and after a close frame always.
pub data SocketRead : Type 0 where
  data_message ping_or_pong close_frame : Frame → Write → SocketRead
  net_closed read_error : SocketRead

-- How `proxySocket` returns: nil, or the error of a read or of a write.
pub data PumpEnd : Type 0 where
  ended_quietly ended_reading ended_writing : PumpEnd

abbrev pub handler_end : Write → PumpEnd
handler_end connection_closed = ended_quietly
handler_end _ = ended_reading

-- `proxySocket` with the handlers of its connection, on what it reads: the frames that it has
-- written, and how it returned, if it has.
unfoldable pub proxy_socket : List SocketRead → List Frame × Option PumpEnd
proxy_socket [] = ([], none)
proxy_socket (data_message f delivered ∷ more) = let (fs, e) = proxy_socket more in (f ∷ fs, e)
proxy_socket (data_message f _ ∷ more) = ([], some ended_writing)
proxy_socket (ping_or_pong f delivered ∷ more) = let (fs, e) = proxy_socket more in (f ∷ fs, e)
proxy_socket (ping_or_pong f w ∷ more) = ([], some (handler_end w))
proxy_socket (close_frame f delivered ∷ more) = (f ∷ [], some ended_reading)
proxy_socket (close_frame f w ∷ more) = ([], some (handler_end w))
proxy_socket (net_closed ∷ more) = ([], some ended_quietly)
proxy_socket (read_error ∷ more) = ([], some ended_reading)
