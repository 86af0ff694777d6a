-- ===== src/Connection/Stuck.antt =====
-- conn.go: `Close` and a `Send` that waits for a full channel.
use cleisthenes.Base.{
  ◌≡◌, refl, Bool, true, false, Option, none, some, List, [], ◌∷◌, length, ltb, if_rule, ◌&&◌,
  arith,
}
use cleisthenes.Base.Go.{done, block}
use cleisthenes.Connection.{
  InnerMessage, GrpcConnection, Event, send, close, handle, write_test, write_stop, write_message,
  read_test, receive, start_test, start_stop, start_error, start_message, send_message,
  close_connection, received, serve_next, step, run,
}

module _ {M : Type 0} where
  -- The flag is set, `writeStream` has left its loop, and a `Send` holds the lock.
  pub record StuckOf (stop_flag writing stream_closed : Bool) (waiting : Option (InnerMessage M))
      : Type 0 where
    pub stopped : stop_flag ≡ true
    pub gone : writing ≡ false
    pub opened : stream_closed ≡ false
    pub sender : (m : InnerMessage M) × (waiting ≡ some m)

  abbrev pub Stuck : GrpcConnection M → Type 0
  Stuck c = StuckOf c.stop_flag c.writing c.stream_closed c.waiting

  received-Stuck :
      (envelope : Option M) (c : GrpcConnection M) → Stuck c → Stuck (received envelope c)
  unfolding received
  received-Stuck none c h = if_rule Stuck c.stop_flag (λ _. h) (λ _. h)
  received-Stuck (some m) c h =
      if_rule Stuck c.stop_flag (λ _. h)
        (λ _. if_rule Stuck (ltb (length c.read_chan) 200) (λ _. h) (λ _. h))

  serve_next-Stuck : (l : List M) (c : GrpcConnection M) → Stuck c → Stuck (serve_next l c)
  unfolding serve_next
  serve_next-Stuck [] c h = h
  serve_next-Stuck (m ∷ rest) c h = h

  send_message-Stuck :
      (m : InnerMessage M) (c : GrpcConnection M) → Stuck c → send_message m c ≡ block c
  unfolding send_message
  send_message-Stuck m c h = let (w, here) = h.sender in ground (arith, here)

  close_connection-again :
      (c : GrpcConnection M) → c.stop_flag ≡ true → close_connection c ≡ done tt c
  unfolding close_connection
  close_connection-again c h = ground (arith, h)

  step-Stuck : (e : Event M) (c : GrpcConnection M) → Stuck c → Stuck (step e c)
  unfolding step
  step-Stuck (send m) c h = rw (send_message-Stuck m c h) h
  step-Stuck close c h = rw (close_connection-again c h.stopped) h
  step-Stuck handle c h = h
  step-Stuck write_test c h = record {
    stopped = h.stopped;
    gone = ground (arith, h.stopped);
    opened = h.opened;
    sender = h.sender;
  }
  step-Stuck write_stop c h =
      if_rule Stuck (ltb 0 c.stop_chan)
        (λ _. record { stopped = h.stopped; gone = refl; opened = h.opened; sender = h.sender })
        (λ _. h)
  step-Stuck (write_message sent) c h =
      if_rule Stuck c.writing (λ on. absurd (ground (arith, on, h.gone))) (λ _. h)
  step-Stuck read_test c h = h
  step-Stuck (receive envelope) c h =
      if_rule Stuck c.reading (λ _. received-Stuck envelope c h) (λ _. h)
  step-Stuck start_test c h = h
  step-Stuck start_stop c h = if_rule Stuck (ltb 0 c.stop_chan) (λ _. h) (λ _. h)
  step-Stuck start_error c h = if_rule Stuck (c.serving && ltb 0 c.err_chan) (λ _. h) (λ _. h)
  step-Stuck start_message c h =
      if_rule Stuck c.serving (λ _. serve_next-Stuck c.read_chan c h) (λ _. h)

  run-Stuck : (es : List (Event M)) (c : GrpcConnection M) → Stuck c → Stuck (run es c)
  unfolding run
  run-Stuck [] c h = h
  run-Stuck (e ∷ es) c h = run-Stuck es (step e c) (step-Stuck e c h)

  -- Let a `Send` wait with the lock in its hands when `Close` is called the first time, and
  -- `writeStream` be at the test of its loop. Then `Close` waits too, and whatever happens after
  -- it, the `Send` goes on waiting, every other `Send` waits, and the stream is never closed.
  pub close_never_ends :
      (c : GrpcConnection M) (m : InnerMessage M) (es : List (Event M))
      → c.stop_flag ≡ false
      → c.stop_chan ≡ 0
      → c.writing ≡ false
      → c.stream_closed ≡ false
      → c.waiting ≡ some m
      → (d : GrpcConnection M) × (close_connection c ≡ block d)
        × ((w : InnerMessage M) → send_message w (run es d) ≡ block (run es d))
        × ((run es d).stream_closed ≡ false)
  unfolding close_connection
  close_never_ends c m es running unused testing opened here =
      let d = record c { stop_flag = true; stop_chan = 1 } in
      let h =
        run-Stuck es d
          (record { stopped = refl; gone = testing; opened = opened; sender = (m, here) }) in
      (d, ground (arith, running, unused, here), λ w. send_message-Stuck w (run es d) h, h.opened)
