-- ===== src/Modules/Sockets/Session.antt =====
-- modules/websocket/websocket.go: an upgraded connection, from the start of both pumps until
-- `handleWebSocket` returns.
pub mod Ending
pub mod Relayed
pub mod Returning
pub mod Turns
use s_ingress.Common.{
  Bool, List, [], false, if◌then◌else◌, is_none, not, true, ◌&&◌, ◌++◌, ◌||◌, ◌∷◌,
}
use s_ingress.Modules.Sockets.{SocketRead, proxy_socket}

-- The connection that a pump reads.
pub data Side : Type 0 where
  upstream_side downstream_side : Side

-- Where `handleWebSocket` stands: in its select, in `wg.Wait` with both connections closed, or at
-- its end.
pub data Progress : Type 0 where
  selecting waiting handler_returned : Progress

-- What the two pumps have read so far, which connections are closed, whether the context of the
-- server is done, and the handler.
pub record Session : Type 0 where
  pub from_upstream : List SocketRead
  pub from_downstream : List SocketRead
  pub upstream_closed : Bool
  pub downstream_closed : Bool
  pub server_done : Bool
  pub progress : Progress

-- A turn of one of the goroutines: a pump reads, with what an open connection gives and what becomes
-- of the write, the server is shut down, or the handler goes on if it can.
pub data Turn : Type 0 where
  pump_reads : Side → SocketRead → Turn
  shuts_down : Turn
  handles : Turn

-- The state once both pumps are started.
abbrev pub upgraded : Session
upgraded = record {
  from_upstream = [];
  from_downstream = [];
  upstream_closed = false;
  downstream_closed = false;
  server_done = false;
  progress = selecting;
}

abbrev pub read_from : Side → Session → List SocketRead
read_from upstream_side s = s.from_upstream
read_from downstream_side s = s.from_downstream

abbrev pub is_closed : Side → Session → Bool
is_closed upstream_side s = s.upstream_closed
is_closed downstream_side s = s.downstream_closed

abbrev pub closes_both : Progress → Bool
closes_both selecting = false
closes_both _ = true

-- Whether a pump has returned, after which it calls `cancel`.
unfoldable pub has_ended : List SocketRead → Bool
has_ended rs = not (is_none (proxy_socket rs).1)

-- Whether the select of the handler has a case to take.
unfoldable pub is_done : Session → Bool
is_done s = has_ended s.from_upstream || has_ended s.from_downstream || s.server_done

-- A pump that has returned reads no more.
unfoldable pub read_next : List SocketRead → SocketRead → List SocketRead
read_next rs r = if has_ended rs then rs else rs ++ r ∷ []

-- The select, and `wg.Wait`.
unfoldable pub handle_on : Progress → Session → Progress
handle_on selecting s = if is_done s then waiting else selecting
handle_on waiting s =
    if has_ended s.from_upstream && has_ended s.from_downstream then handler_returned else waiting
handle_on handler_returned s = handler_returned

-- The two calls of `Close`, once the select is left.
unfoldable pub close_both : Progress → Session → Session
close_both selecting s = s
close_both _ s = record s { upstream_closed = true; downstream_closed = true }

-- `after_close` is what the library gives for a read of a connection that is closed.
module _ (after_close : SocketRead → SocketRead) where
  abbrev pub read_of : Bool → SocketRead → SocketRead
  read_of true r = after_close r
  read_of false r = r

  unfoldable pub take_turn : Session → Turn → Session
  take_turn s (pump_reads upstream_side r) = record s {
    from_upstream = read_next s.from_upstream (read_of s.upstream_closed r);
  }
  take_turn s (pump_reads downstream_side r) = record s {
    from_downstream = read_next s.from_downstream (read_of s.downstream_closed r);
  }
  take_turn s shuts_down = record s { server_done = true }
  take_turn s handles =
      let next = handle_on s.progress s in close_both next (record s { progress = next })

  unfoldable pub run_session : Session → List Turn → Session
  run_session s [] = s
  run_session s (t ∷ ts) = run_session (take_turn s t) ts
