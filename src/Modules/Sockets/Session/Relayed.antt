-- ===== src/Modules/Sockets/Session/Relayed.antt =====
-- modules/websocket/websocket.go: what holds at any time of an upgraded connection.
use s_ingress.Common.{
  &&-eq-true, Bool, Bool-cases, List, [], arith, false, inl, inr, refl, true, ◌&&◌, ◌∙◌, ◌∷◌, ◌≡◌,
}
use s_ingress.Modules.Sockets.Relay.{IsRelayed, frames_of, proxy_socket-IsRelayed}
use s_ingress.Modules.Sockets.Session.Ending.{handle_on-waiting, read_next-stays}
use s_ingress.Modules.Sockets.Session.{
  Progress, Session, Side, Turn, close_both, closes_both, downstream_side, handle_on,
  handler_returned, handles, has_ended, is_closed, is_done, pump_reads, read_from, read_next,
  run_session, selecting, shuts_down, take_turn, upgraded, upstream_side, waiting,
}
use s_ingress.Modules.Sockets.{SocketRead, proxy_socket}

-- What the handler may rely on where it stands, and what passes in each direction.
pub record IsSound (s : Session) : Type 0 where
  pub shut : (side : Side) → is_closed side s ≡ closes_both s.progress
  pub closed : closes_both s.progress ≡ true → is_done s ≡ true
  pub finished :
      s.progress ≡ handler_returned
      → (has_ended s.from_upstream ≡ true) × (has_ended s.from_downstream ≡ true)
  pub relayed :
      (side : Side) → IsRelayed (frames_of (read_from side s)) (proxy_socket (read_from side s))

upgraded-open : (side : Side) → is_closed side upgraded ≡ false
upgraded-open upstream_side = refl
upgraded-open downstream_side = refl

upgraded-IsSound : IsSound upgraded
upgraded-IsSound = record {
  shut = λ side. upgraded-open side;
  closed = λ c. cc;
  finished = λ e. cc;
  relayed = λ side. proxy_socket-IsRelayed (read_from side upgraded);
}

is_done-upstream :
    (s : Session) (r : SocketRead)
    → is_done s ≡ true
    → is_done (record s { from_upstream = read_next s.from_upstream r }) ≡ true
unfolding is_done
is_done-upstream s r d = ground (arith, d, read_next-stays s.from_upstream r)

is_done-downstream :
    (s : Session) (r : SocketRead)
    → is_done s ≡ true
    → is_done (record s { from_downstream = read_next s.from_downstream r }) ≡ true
unfolding is_done
is_done-downstream s r d = ground (arith, d, read_next-stays s.from_downstream r)

is_done-shutdown : (s : Session) → is_done (record s { server_done = true }) ≡ true
unfolding is_done
is_done-shutdown s = ground arith

handle_on-closed :
    (p : Progress) (s : Session)
    → (closes_both p ≡ true → is_done s ≡ true)
    → closes_both (handle_on p s) ≡ true
    → is_done s ≡ true
unfolding handle_on
handle_on-closed selecting s h c = elim (Bool-cases (is_done s)) [
  | inl d ↦ d
  | inr d ↦ cc (rw d at c)
]
handle_on-closed waiting s h c = h refl
handle_on-closed handler_returned s h c = h refl

handle_on-finished :
    (p : Progress) (s : Session)
    → (p ≡ handler_returned
        → (has_ended s.from_upstream ≡ true) × (has_ended s.from_downstream ≡ true))
    → handle_on p s ≡ handler_returned
    → (has_ended s.from_upstream ≡ true) × (has_ended s.from_downstream ≡ true)
unfolding handle_on
handle_on-finished selecting s h e = elim (Bool-cases (is_done s)) [
  | inl d ↦ cc (rw d at e)
  | inr d ↦ cc (rw d at e)
]
handle_on-finished waiting s h e =
    elim (Bool-cases (has_ended s.from_upstream && has_ended s.from_downstream)) [
      | inl b ↦ &&-eq-true _ _ b
      | inr b ↦ cc (rw b at e)
    ]
handle_on-finished handler_returned s h e = h refl

handle_on-selecting :
    (p : Progress) (s : Session) → closes_both (handle_on p s) ≡ false → closes_both p ≡ false
unfolding handle_on
handle_on-selecting selecting s c = refl
handle_on-selecting waiting s c = let bad = handle_on-waiting s in cc
handle_on-selecting handler_returned s c = c

-- Each side of a session reads the two fields of its connections.
is_closed-fields :
    {b : Bool} (side : Side) (s t : Session)
    → t.upstream_closed ≡ s.upstream_closed
    → t.downstream_closed ≡ s.downstream_closed
    → ((side : Side) → is_closed side s ≡ b)
    → is_closed side t ≡ b
is_closed-fields upstream_side s t u d h = u ∙ h upstream_side
is_closed-fields downstream_side s t u d h = d ∙ h downstream_side

is_closed-both :
    (side : Side) (t : Session)
    → t.upstream_closed ≡ true
    → t.downstream_closed ≡ true
    → is_closed side t ≡ true
is_closed-both upstream_side t u d = u
is_closed-both downstream_side t u d = d

-- The handler goes on to a state, and closes the connections if it is not the select.
enter-IsSound :
    (p : Progress) (s : Session)
    → (closes_both p ≡ true → is_done s ≡ true)
    → (p ≡ handler_returned
        → (has_ended s.from_upstream ≡ true) × (has_ended s.from_downstream ≡ true))
    → (closes_both p ≡ false → (side : Side) → is_closed side s ≡ false)
    → IsSound (close_both p (record s { progress = p }))
unfolding close_both is_done
enter-IsSound selecting s d f o = record {
  shut = λ side. is_closed-fields side s _ refl refl (o refl);
  closed = d;
  finished = f;
  relayed = λ side. proxy_socket-IsRelayed _;
}
enter-IsSound waiting s d f o = record {
  shut = λ side. is_closed-both side _ refl refl;
  closed = d;
  finished = f;
  relayed = λ side. proxy_socket-IsRelayed _;
}
enter-IsSound handler_returned s d f o = record {
  shut = λ side. is_closed-both side _ refl refl;
  closed = d;
  finished = f;
  relayed = λ side. proxy_socket-IsRelayed _;
}

module _ (after_close : SocketRead → SocketRead) where
  pub take_turn-IsSound : (t : Turn) (s : Session) → IsSound s → IsSound (take_turn after_close s t)
  unfolding take_turn is_done
  take_turn-IsSound (pump_reads upstream_side r) s i = record {
    shut = λ side. is_closed-fields side s _ refl refl i.shut;
    closed = λ c. is_done-upstream s _ (i.closed c);
    finished = λ e. let (u, d) = i.finished e in (read_next-stays s.from_upstream _ u, d);
    relayed = λ side. proxy_socket-IsRelayed _;
  }
  take_turn-IsSound (pump_reads downstream_side r) s i = record {
    shut = λ side. is_closed-fields side s _ refl refl i.shut;
    closed = λ c. is_done-downstream s _ (i.closed c);
    finished = λ e. let (u, d) = i.finished e in (u, read_next-stays s.from_downstream _ d);
    relayed = λ side. proxy_socket-IsRelayed _;
  }
  take_turn-IsSound shuts_down s i = record {
    shut = λ side. is_closed-fields side s _ refl refl i.shut;
    closed = λ c. is_done-shutdown s;
    finished = i.finished;
    relayed = λ side. proxy_socket-IsRelayed _;
  }
  take_turn-IsSound handles s i =
      enter-IsSound (handle_on s.progress s) s (handle_on-closed s.progress s i.closed)
        (handle_on-finished s.progress s i.finished)
        (λ c side. i.shut side ∙ handle_on-selecting s.progress s c)

  run_session-keeps :
      (ts : List Turn) (s : Session) → IsSound s → IsSound (run_session after_close s ts)
  unfolding run_session
  run_session-keeps [] s i = i
  run_session-keeps (t ∷ ts) s i =
      run_session-keeps ts (take_turn after_close s t) (take_turn-IsSound t s i)

  -- Whatever turns are taken after the upgrade, both connections are closed together, only after a
  -- pump has returned or the server was shut down, `handleWebSocket` returns only after both pumps
  -- have, and the frames written in each direction are the beginning of those that were sent,
  -- control frames included and in their order, and all of them while the pump of that direction
  -- runs.
  pub run_session-IsSound : (ts : List Turn) → IsSound (run_session after_close upgraded ts)
  run_session-IsSound ts = run_session-keeps ts upgraded upgraded-IsSound
