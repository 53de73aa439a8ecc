-- ===== src/Modules/Sockets/Relay.antt =====
-- modules/websocket/websocket.go: what passes from one side of a websocket to the other.
use s_ingress.Common.{List, Option, [], ap, none, refl, some, ◌++◌, ◌∷◌, ◌≡◌}
use s_ingress.Modules.Sockets.{
  Frame, PumpEnd, SocketRead, close_frame, connection_closed, data_message, delivered,
  ended_quietly, ended_reading, ended_writing, net_closed, ping_or_pong, proxy_socket, read_error,
  write_failed,
}

-- The frames that one side has sent.
abbrev pub frames_of : List SocketRead → List Frame
frames_of [] = []
frames_of (data_message f w ∷ more) = f ∷ frames_of more
frames_of (ping_or_pong f w ∷ more) = f ∷ frames_of more
frames_of (close_frame f w ∷ more) = f ∷ frames_of more
frames_of (net_closed ∷ more) = frames_of more
frames_of (read_error ∷ more) = frames_of more

-- What was written is the beginning of what was sent, and all of it while the pump runs.
abbrev pub IsRelayed : List Frame → List Frame × Option PumpEnd → Type 0
IsRelayed sent p = (rest : List Frame) × (sent ≡ p.0 ++ rest) × (p.1 ≡ none → rest ≡ [])

IsRelayed-cons :
    (f : Frame) (sent : List Frame) (p : List Frame × Option PumpEnd)
    → IsRelayed sent p
    → IsRelayed (f ∷ sent) (f ∷ p.0, p.1)
IsRelayed-cons f sent p (rest, e, all) = (rest, ap (λ x. f ∷ x) e, all)

stopped : (sent : List Frame) (e : PumpEnd) → IsRelayed sent ([], some e)
stopped sent e = (sent, refl, λ n. cc)

-- The frames that a pump of a websocket writes are those that the other side has sent, control
-- frames included, in their order and without a gap, and while the pump has not returned they are
-- all of them.
pub proxy_socket-IsRelayed :
    (reads : List SocketRead) → IsRelayed (frames_of reads) (proxy_socket reads)
unfolding proxy_socket
proxy_socket-IsRelayed [] = ([], refl, λ n. refl)
proxy_socket-IsRelayed (data_message f delivered ∷ more) =
    IsRelayed-cons f _ _ (proxy_socket-IsRelayed more)
proxy_socket-IsRelayed (data_message f connection_closed ∷ more) = stopped _ ended_writing
proxy_socket-IsRelayed (data_message f write_failed ∷ more) = stopped _ ended_writing
proxy_socket-IsRelayed (ping_or_pong f delivered ∷ more) =
    IsRelayed-cons f _ _ (proxy_socket-IsRelayed more)
proxy_socket-IsRelayed (ping_or_pong f connection_closed ∷ more) = stopped _ ended_quietly
proxy_socket-IsRelayed (ping_or_pong f write_failed ∷ more) = stopped _ ended_reading
proxy_socket-IsRelayed (close_frame f delivered ∷ more) = (frames_of more, refl, λ n. cc)
proxy_socket-IsRelayed (close_frame f connection_closed ∷ more) = stopped _ ended_quietly
proxy_socket-IsRelayed (close_frame f write_failed ∷ more) = stopped _ ended_reading
proxy_socket-IsRelayed (net_closed ∷ more) = stopped _ ended_quietly
proxy_socket-IsRelayed (read_error ∷ more) = stopped _ ended_reading
