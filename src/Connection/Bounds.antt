-- ===== src/Connection/Bounds.antt =====
-- conn.go: how full the channels of a connection get.
use cleisthenes.Base.{
  ℕ, ◌≤◌, ◌≡◌, ◌⊎◌, refl, subst, inl, inr, Bool, true, ◌&&◌, Option, none, some, List, [], ◌∷◌,
  length, length-append, ltb, Option-cases, if◌then◌else◌, if_rule, arith, String,
}
use mathlib.Core.Option.{some-injective}
use cleisthenes.Member.{Address}
use cleisthenes.Connection.{
  InnerMessage, GrpcConnection, Event, send, close, handle, write_test, write_stop, write_message,
  read_test, receive, start_test, start_stop, start_error, start_message, new_connection,
  send_message, close_connection, refill, write_next, received, serve_next, step,
}

module _ {M : Type 0} where
  pub record WithinOf (out_chan : List (InnerMessage M)) (waiting : Option (InnerMessage M))
      (read_chan : List M) (stop_chan err_chan : ℕ) (stop_flag reading : Bool) : Type 0 where
    pub out : length out_chan ≤ 200
    pub read : length read_chan ≤ 200
    pub stop : stop_chan ≤ (if stop_flag then 1 else 0)
    pub error : err_chan ≤ (if reading then 0 else 1)
    pub full : (waiting ≡ none) ⊎ (length out_chan ≡ 200)

  -- No channel holds more than its capacity, and a `Send` waits only for a full channel.
  abbrev pub Within : GrpcConnection M → Type 0
  Within c = WithinOf c.out_chan c.waiting c.read_chan c.stop_chan c.err_chan c.stop_flag c.reading

  write_next-Within :
      (sent : Bool) (l : List (InnerMessage M)) (c : GrpcConnection M)
      → c.out_chan ≡ l
      → Within c
      → Within (write_next sent l c)
  unfolding write_next refill
  write_next-Within sent [] c e h = h
  write_next-Within sent (m ∷ rest) c e h = elim (Option-cases c.waiting) [
    | inl free ↦ record {
      out = ground (arith, h.out, e, free);
      read = ground (arith, h.read, free);
      stop = ground (arith, h.stop, free);
      error = ground (arith, h.error, free);
      full = ground (arith, free);
    }
    | inr (w, here) ↦ record {
      out = ground (arith, h.out, e, here, length-append rest (w ∷ []));
      read = ground (arith, h.read, here);
      stop = ground (arith, h.stop, here);
      error = ground (arith, h.error, here);
      full = ground (arith, here);
    }
  ]

  received-Within :
      (envelope : Option M) (c : GrpcConnection M)
      → c.reading ≡ true
      → Within c
      → Within (received envelope c)
  unfolding received
  received-Within none c on h = record {
    out = ground (arith, h.out, h.full);
    read = ground (arith, h.read);
    stop = ground (arith, h.stop);
    error = ground (arith, h.error);
    full = ground (arith, h.out, h.full);
  }
  received-Within (some m) c on h = record {
    out = ground (arith, h.out, h.full);
    read = ground (arith, h.read, length-append c.read_chan (m ∷ []));
    stop = ground (arith, h.stop);
    error = ground (arith, h.error);
    full = ground (arith, h.out, h.full);
  }

  serve_next-Within :
      (l : List M) (c : GrpcConnection M) → c.read_chan ≡ l → Within c → Within (serve_next l c)
  unfolding serve_next
  serve_next-Within [] c e h = h
  serve_next-Within (m ∷ rest) c e h = record {
    out = h.out;
    read = ground (arith, h.read, e);
    stop = h.stop;
    error = h.error;
    full = h.full;
  }

  pub step-Within : (e : Event M) (c : GrpcConnection M) → Within c → Within (step e c)
  unfolding step send_message close_connection refill write_next received serve_next
  step-Within (send m) c h = record {
    out = ground (arith, h.out, h.full, length-append c.out_chan (m ∷ []));
    read = ground (arith, h.read);
    stop = ground (arith, h.stop);
    error = ground (arith, h.error);
    full = ground (arith, h.out, h.full, length-append c.out_chan (m ∷ []));
  }
  step-Within close c h = record {
    out = ground (arith, h.out, h.full);
    read = ground (arith, h.read);
    stop = ground (arith, h.stop);
    error = ground (arith, h.error);
    full = ground (arith, h.out, h.full);
  }
  step-Within handle c h = h
  step-Within write_test c h = h
  step-Within write_stop c h = if_rule Within (ltb 0 c.stop_chan) (λ _. h) (λ _. h)
  step-Within (write_message sent) c h =
      if_rule Within c.writing (λ _. write_next-Within sent c.out_chan c refl h) (λ _. h)
  step-Within read_test c h = record {
    out = ground (arith, h.out, h.full);
    read = ground (arith, h.read);
    stop = ground (arith, h.stop);
    error = ground (arith, h.error);
    full = ground (arith, h.out, h.full);
  }
  step-Within (receive envelope) c h =
      if_rule Within c.reading (λ on. received-Within envelope c on h) (λ _. h)
  step-Within start_test c h = h
  step-Within start_stop c h = if_rule Within (ltb 0 c.stop_chan) (λ _. h) (λ _. h)
  step-Within start_error c h = if_rule Within (c.serving && ltb 0 c.err_chan) (λ _. h) (λ _. h)
  step-Within start_message c h =
      if_rule Within c.serving (λ _. serve_next-Within c.read_chan c refl h) (λ _. h)

  pub new-Within :
      (ip : Address) (id : String) {c : GrpcConnection M}
      → new_connection ip id true ≡ some c
      → Within c
  unfolding new_connection
  new-Within ip id e = subst Within (some-injective _ _ e) (record {
    out = ground arith;
    read = ground arith;
    stop = ground arith;
    error = ground arith;
    full = inl refl;
  })
