-- ===== src/Modules/Sockets/Session/Returning.antt =====
-- modules/websocket/websocket.go: `handleWebSocket` returns, and both directions end with it.
use mathlib.Core.Path.{subst}
use s_ingress.Common.{In, List, [], arith, inl, inr, refl, sym, true, ◌++◌, ◌∙◌, ◌∷◌, ◌≡◌, ◌⊎◌}
use s_ingress.Modules.Sockets.Session.Ending.{
  FailsIn, close_both-progress, handle_on-first, handle_on-last,
}
use s_ingress.Modules.Sockets.Session.Relayed.{IsSound, run_session-IsSound, take_turn-IsSound}
use s_ingress.Modules.Sockets.Session.Turns.{
  FailsClosed, run_session-append, run_session-closes, run_session-fails, run_session-shutdown,
  run_session-unblocked,
}
use s_ingress.Modules.Sockets.Session.{
  Session, Side, Turn, close_both, closes_both, downstream_side, handle_on, handler_returned,
  handles, has_ended, is_done, pump_reads, read_from, run_session, shuts_down, take_turn, upgraded,
  upstream_side,
}
use s_ingress.Modules.Sockets.{SocketRead}

-- A pump does not get a frame through, or the server is shut down.
abbrev pub StopsIn : List Turn → Type 0
StopsIn ts = In shuts_down ts ⊎ ((side : Side) × FailsIn side ts)

-- The pump of a side has a turn.
abbrev pub TurnIn : Side → List Turn → Type 0
TurnIn side ts = (r : SocketRead) × In (pump_reads side r) ts

ended-is_done : (side : Side) (s : Session) → has_ended (read_from side s) ≡ true → is_done s ≡ true
unfolding is_done
ended-is_done upstream_side s e = ground (arith, e)
ended-is_done downstream_side s e = ground (arith, e)

shut_down-is_done : (s : Session) → s.server_done ≡ true → is_done s ≡ true
unfolding is_done
shut_down-is_done s d = ground (arith, d)

module _ (after_close : SocketRead → SocketRead) where
  stopped-is_done :
      FailsClosed after_close
      → (ts : List Turn) → StopsIn ts
      → is_done (run_session after_close upgraded ts) ≡ true
  stopped-is_done fails ts (inl i) =
      shut_down-is_done _ (run_session-shutdown after_close ts upgraded i)
  stopped-is_done fails ts (inr (side, (r, i, e))) =
      ended-is_done side _ (run_session-fails after_close fails ts side upgraded r i e)

  abbrev pub IsOver : Session → Type 0
  IsOver s =
      (s.progress ≡ handler_returned)
      × (has_ended s.from_upstream ≡ true)
      × (has_ended s.from_downstream ≡ true)

  last-IsOver :
      (s : Session)
      → closes_both s.progress ≡ true
      → has_ended s.from_upstream ≡ true
      → has_ended s.from_downstream ≡ true
      → IsOver (take_turn after_close s handles)
  unfolding take_turn close_both
  last-IsOver s c u d = rw (handle_on-last s.progress s c u d) (refl, u, d)

  first-closes :
      (s : Session)
      → is_done s ≡ true
      → closes_both (take_turn after_close s handles).progress ≡ true
  unfolding take_turn
  first-closes s d =
      rw (close_both-progress (handle_on s.progress s) _) (handle_on-first s.progress s d)

  -- From a state in which the select has a case to take.
  returns-from :
      FailsClosed after_close
      → (s : Session) (ts : List Turn) → IsSound s
      → is_done s ≡ true
      → TurnIn upstream_side ts
      → TurnIn downstream_side ts
      → IsOver (run_session after_close s (handles ∷ ts ++ handles ∷ []))
  unfolding run_session
  returns-from fails s ts i d (r, j) (q, k) =
      let first = take_turn after_close s handles in
      let sound = take_turn-IsSound after_close handles s i in
      let c = first-closes s d in
      let mid = run_session after_close first ts in
      rw (run_session-append after_close ts (handles ∷ []) first) (
        last-IsOver mid (run_session-closes after_close ts first c)
          (run_session-unblocked after_close fails ts upstream_side first r
            (sound.shut upstream_side ∙ c) j)
          (run_session-unblocked after_close fails ts downstream_side first q
            (sound.shut downstream_side ∙ c) k))

  -- Once the server is shut down, or a pump does not get a frame through, `handleWebSocket` returns
  -- after a turn of its own, a turn of each pump in any order, and another turn of its own, whatever
  -- turns come in between; by then both pumps have returned. It is assumed that the library does not
  -- get a frame through a connection that is closed.
  pub run_session-returns :
      FailsClosed after_close
      → (before ts : List Turn) → StopsIn before
      → TurnIn upstream_side ts
      → TurnIn downstream_side ts
      → IsOver (run_session after_close upgraded (before ++ (handles ∷ ts ++ handles ∷ [])))
  run_session-returns fails before ts stops u d =
      subst IsOver
        (sym (run_session-append after_close before (handles ∷ ts ++ handles ∷ []) upgraded))
        (returns-from fails (run_session after_close upgraded before) ts
          (run_session-IsSound after_close before) (stopped-is_done fails before stops) u d)
