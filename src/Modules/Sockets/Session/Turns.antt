-- ===== src/Modules/Sockets/Session/Turns.antt =====
-- modules/websocket/websocket.go: what stays true over the turns of an upgraded connection.
use s_ingress.Common.{Bool, In, List, [], false, here, refl, there, true, ◌++◌, ◌∷◌, ◌≡◌}
use s_ingress.Modules.Sockets.Session.Ending.{
  close_both-closed, close_both-done, close_both-progress, close_both-read, handle_on-closes,
  read_next-ends, read_next-stays,
}
use s_ingress.Modules.Sockets.Session.{
  Session, Side, Turn, closes_both, downstream_side, handle_on, handles, has_ended, is_closed,
  pump_reads, read_from, read_of, run_session, shuts_down, take_turn, upstream_side,
}
use s_ingress.Modules.Sockets.{SocketRead}

module _ (after_close : SocketRead → SocketRead) where
  -- A pump that has returned stays so.
  pub take_turn-ended :
      (t : Turn) (side : Side) (s : Session)
      → has_ended (read_from side s) ≡ true
      → has_ended (read_from side (take_turn after_close s t)) ≡ true
  unfolding take_turn
  take_turn-ended (pump_reads upstream_side r) upstream_side s e =
      read_next-stays s.from_upstream _ e
  take_turn-ended (pump_reads upstream_side r) downstream_side s e = e
  take_turn-ended (pump_reads downstream_side r) upstream_side s e = e
  take_turn-ended (pump_reads downstream_side r) downstream_side s e =
      read_next-stays s.from_downstream _ e
  take_turn-ended shuts_down upstream_side s e = e
  take_turn-ended shuts_down downstream_side s e = e
  take_turn-ended handles upstream_side s e =
      rw (close_both-read (handle_on s.progress s) upstream_side _) e
  take_turn-ended handles downstream_side s e =
      rw (close_both-read (handle_on s.progress s) downstream_side _) e

  pub run_session-ended :
      (ts : List Turn) (side : Side) (s : Session)
      → has_ended (read_from side s) ≡ true
      → has_ended (read_from side (run_session after_close s ts)) ≡ true
  unfolding run_session
  run_session-ended [] side s e = e
  run_session-ended (t ∷ ts) side s e =
      run_session-ended ts side (take_turn after_close s t) (take_turn-ended t side s e)

  -- The library does not get a frame through a connection that is closed.
  abbrev pub FailsClosed : Type 0
  FailsClosed = (r : SocketRead) → has_ended (after_close r ∷ []) ≡ true

  read_of-ends :
      FailsClosed
      → (closed : Bool) (r : SocketRead) → has_ended (r ∷ []) ≡ true
      → has_ended (read_of after_close closed r ∷ []) ≡ true
  read_of-ends fails true r e = fails r
  read_of-ends fails false r e = e

  take_turn-fails :
      FailsClosed
      → (side : Side) (r : SocketRead) (s : Session) → has_ended (r ∷ []) ≡ true
      → has_ended (read_from side (take_turn after_close s (pump_reads side r))) ≡ true
  unfolding take_turn
  take_turn-fails fails upstream_side r s e =
      read_next-ends s.from_upstream _ (read_of-ends fails s.upstream_closed r e)
  take_turn-fails fails downstream_side r s e =
      read_next-ends s.from_downstream _ (read_of-ends fails s.downstream_closed r e)

  pub run_session-fails :
      FailsClosed
      → (ts : List Turn) (side : Side) (s : Session) (r : SocketRead) → In (pump_reads side r) ts
      → has_ended (r ∷ []) ≡ true
      → has_ended (read_from side (run_session after_close s ts)) ≡ true
  unfolding run_session
  run_session-fails fails [] side s r i e = elim i [ ]
  run_session-fails fails (_ ∷ ts) side s r here e =
      run_session-ended ts side (take_turn after_close s (pump_reads side r))
        (take_turn-fails fails side r s e)
  run_session-fails fails (t ∷ ts) side s r (there i) e =
      run_session-fails fails ts side (take_turn after_close s t) r i e

  -- A connection that is closed stays so.
  take_turn-closed :
      (t : Turn) (side : Side) (s : Session)
      → is_closed side s ≡ true
      → is_closed side (take_turn after_close s t) ≡ true
  unfolding take_turn
  take_turn-closed (pump_reads upstream_side r) upstream_side s c = c
  take_turn-closed (pump_reads upstream_side r) downstream_side s c = c
  take_turn-closed (pump_reads downstream_side r) upstream_side s c = c
  take_turn-closed (pump_reads downstream_side r) downstream_side s c = c
  take_turn-closed shuts_down upstream_side s c = c
  take_turn-closed shuts_down downstream_side s c = c
  take_turn-closed handles upstream_side s c =
      close_both-closed (handle_on s.progress s) upstream_side _ c
  take_turn-closed handles downstream_side s c =
      close_both-closed (handle_on s.progress s) downstream_side _ c

  take_turn-unblocked :
      FailsClosed
      → (side : Side) (r : SocketRead) (s : Session) → is_closed side s ≡ true
      → has_ended (read_from side (take_turn after_close s (pump_reads side r))) ≡ true
  unfolding take_turn
  take_turn-unblocked fails upstream_side r s c = read_next-ends s.from_upstream _ (rw c (fails r))
  take_turn-unblocked fails downstream_side r s c =
      read_next-ends s.from_downstream _ (rw c (fails r))

  -- A pump of a connection that is closed returns at its next turn.
  pub run_session-unblocked :
      FailsClosed
      → (ts : List Turn) (side : Side) (s : Session) (r : SocketRead) → is_closed side s ≡ true
      → In (pump_reads side r) ts
      → has_ended (read_from side (run_session after_close s ts)) ≡ true
  unfolding run_session
  run_session-unblocked fails [] side s r c i = elim i [ ]
  run_session-unblocked fails (_ ∷ ts) side s r c here =
      run_session-ended ts side (take_turn after_close s (pump_reads side r))
        (take_turn-unblocked fails side r s c)
  run_session-unblocked fails (t ∷ ts) side s r c (there i) =
      run_session-unblocked fails ts side (take_turn after_close s t) r
        (take_turn-closed t side s c) i

  -- A shutdown of the server stays.
  take_turn-done :
      (t : Turn) (s : Session)
      → s.server_done ≡ true
      → (take_turn after_close s t).server_done ≡ true
  unfolding take_turn
  take_turn-done (pump_reads upstream_side r) s d = d
  take_turn-done (pump_reads downstream_side r) s d = d
  take_turn-done shuts_down s d = refl
  take_turn-done handles s d = rw (close_both-done (handle_on s.progress s) _) d

  run_session-done :
      (ts : List Turn) (s : Session)
      → s.server_done ≡ true
      → (run_session after_close s ts).server_done ≡ true
  unfolding run_session
  run_session-done [] s d = d
  run_session-done (t ∷ ts) s d =
      run_session-done ts (take_turn after_close s t) (take_turn-done t s d)

  pub run_session-shutdown :
      (ts : List Turn) (s : Session)
      → In shuts_down ts
      → (run_session after_close s ts).server_done ≡ true
  unfolding run_session take_turn
  run_session-shutdown [] s i = elim i [ ]
  run_session-shutdown (_ ∷ ts) s here =
      run_session-done ts (take_turn after_close s shuts_down) refl
  run_session-shutdown (t ∷ ts) s (there i) = run_session-shutdown ts (take_turn after_close s t) i

  take_turn-closes :
      (t : Turn) (s : Session)
      → closes_both s.progress ≡ true
      → closes_both (take_turn after_close s t).progress ≡ true
  unfolding take_turn
  take_turn-closes (pump_reads upstream_side r) s c = c
  take_turn-closes (pump_reads downstream_side r) s c = c
  take_turn-closes shuts_down s c = c
  take_turn-closes handles s c =
      rw (close_both-progress (handle_on s.progress s) _) (handle_on-closes s.progress s c)

  pub run_session-closes :
      (ts : List Turn) (s : Session)
      → closes_both s.progress ≡ true
      → closes_both (run_session after_close s ts).progress ≡ true
  unfolding run_session
  run_session-closes [] s c = c
  run_session-closes (t ∷ ts) s c =
      run_session-closes ts (take_turn after_close s t) (take_turn-closes t s c)

  pub run_session-append :
      (ts us : List Turn) (s : Session)
      → run_session after_close s (ts ++ us)
        ≡ run_session after_close (run_session after_close s ts) us
  unfolding run_session
  run_session-append [] us s = refl
  run_session-append (t ∷ ts) us s = run_session-append ts us (take_turn after_close s t)
