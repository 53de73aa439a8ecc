-- ===== src/Modules/Sockets/Session/Ending.antt =====
-- modules/websocket/websocket.go: how both directions of an upgraded connection end together.
use s_ingress.Common.{Bool-cases, In, List, [], inl, inr, refl, true, ◌&&◌, ◌++◌, ◌∷◌, ◌≡◌}
use s_ingress.Modules.Sockets.Session.{
  Progress, Session, Side, Turn, close_both, closes_both, downstream_side, handle_on,
  handler_returned, has_ended, is_closed, is_done, pump_reads, read_from, read_next, selecting,
  upstream_side, waiting,
}
use s_ingress.Modules.Sockets.{
  SocketRead, close_frame, connection_closed, data_message, delivered, net_closed, ping_or_pong,
  proxy_socket, read_error, write_failed,
}

pub has_ended-append :
    (rs : List SocketRead) (r : SocketRead)
    → has_ended (r ∷ []) ≡ true
    → has_ended (rs ++ r ∷ []) ≡ true
unfolding has_ended proxy_socket
has_ended-append [] r e = e
has_ended-append (data_message f delivered ∷ more) r e = has_ended-append more r e
has_ended-append (data_message f connection_closed ∷ more) r e = refl
has_ended-append (data_message f write_failed ∷ more) r e = refl
has_ended-append (ping_or_pong f delivered ∷ more) r e = has_ended-append more r e
has_ended-append (ping_or_pong f connection_closed ∷ more) r e = refl
has_ended-append (ping_or_pong f write_failed ∷ more) r e = refl
has_ended-append (close_frame f delivered ∷ more) r e = refl
has_ended-append (close_frame f connection_closed ∷ more) r e = refl
has_ended-append (close_frame f write_failed ∷ more) r e = refl
has_ended-append (net_closed ∷ more) r e = refl
has_ended-append (read_error ∷ more) r e = refl

pub read_next-stays :
    (rs : List SocketRead) (r : SocketRead)
    → has_ended rs ≡ true
    → has_ended (read_next rs r) ≡ true
unfolding read_next
read_next-stays rs r e = rw e e

pub read_next-ends :
    (rs : List SocketRead) (r : SocketRead)
    → has_ended (r ∷ []) ≡ true
    → has_ended (read_next rs r) ≡ true
unfolding read_next
read_next-ends rs r e = elim (Bool-cases (has_ended rs)) [
  | inl h ↦ rw h h
  | inr h ↦ rw h (has_ended-append rs r e)
]

-- Among the turns is one in which the pump of a side does not get a frame through, because the read
-- or the write fails.
abbrev pub FailsIn : Side → List Turn → Type 0
FailsIn side ts = (r : SocketRead) × In (pump_reads side r) ts × (has_ended (r ∷ []) ≡ true)

pub handle_on-waiting : (s : Session) → closes_both (handle_on waiting s) ≡ true
unfolding handle_on
handle_on-waiting s = elim (Bool-cases (has_ended s.from_upstream && has_ended s.from_downstream)) [
  | inl h ↦ rw h refl
  | inr h ↦ rw h refl
]

-- Once both connections are closed they stay so.
pub handle_on-closes :
    (p : Progress) (s : Session) → closes_both p ≡ true → closes_both (handle_on p s) ≡ true
unfolding handle_on
handle_on-closes selecting s c = cc
handle_on-closes waiting s c = handle_on-waiting s
handle_on-closes handler_returned s c = refl

pub handle_on-first :
    (p : Progress) (s : Session) → is_done s ≡ true → closes_both (handle_on p s) ≡ true
unfolding handle_on
handle_on-first selecting s d = rw d refl
handle_on-first waiting s d = handle_on-waiting s
handle_on-first handler_returned s d = refl

pub handle_on-last :
    (p : Progress) (s : Session)
    → closes_both p ≡ true
    → has_ended s.from_upstream ≡ true
    → has_ended s.from_downstream ≡ true
    → handle_on p s ≡ handler_returned
unfolding handle_on
handle_on-last selecting s c u d = cc
handle_on-last waiting s c u d = rw (u, d) refl
handle_on-last handler_returned s c u d = refl

-- The calls of `Close` change nothing else.
pub close_both-read :
    (p : Progress) (side : Side) (s : Session) → read_from side (close_both p s) ≡ read_from side s
unfolding close_both
close_both-read selecting side s = refl
close_both-read waiting upstream_side s = refl
close_both-read waiting downstream_side s = refl
close_both-read handler_returned upstream_side s = refl
close_both-read handler_returned downstream_side s = refl

pub close_both-progress : (p : Progress) (s : Session) → (close_both p s).progress ≡ s.progress
unfolding close_both
close_both-progress selecting s = refl
close_both-progress waiting s = refl
close_both-progress handler_returned s = refl

pub close_both-done : (p : Progress) (s : Session) → (close_both p s).server_done ≡ s.server_done
unfolding close_both
close_both-done selecting s = refl
close_both-done waiting s = refl
close_both-done handler_returned s = refl

pub close_both-closed :
    (p : Progress) (side : Side) (s : Session)
    → is_closed side s ≡ true
    → is_closed side (close_both p s) ≡ true
unfolding close_both
close_both-closed selecting side s c = c
close_both-closed waiting upstream_side s c = refl
close_both-closed waiting downstream_side s c = refl
close_both-closed handler_returned upstream_side s c = refl
close_both-closed handler_returned downstream_side s c = refl
