-- ===== src/Connection/Fifo.antt =====
-- conn.go: a connection seen as a queue of the messages that `Send` is given.
use cleisthenes.Base.{
  String, ◌≡◌, refl, sym, ap, ◌∙◌, inl, inr, Bool, true, Option, none, some, List, [], ◌∷◌, ◌++◌,
  append_assoc, append-nil, length, ltb, Option-cases, Bool-cases, if◌then◌else◌, arith,
}
use mathlib.Core.Option.{some-injective}
use cleisthenes.Member.{Address}
use cleisthenes.Connection.Bounds.{Within, step-Within, new-Within}
use cleisthenes.Connection.{
  InnerMessage, GrpcConnection, Event, send, close, handle, write_test, write_stop, write_message,
  read_test, receive, start_test, start_stop, start_error, start_message, chan_size, new_connection,
  send_message, close_connection, refill, write_next, received, serve_next, step, run,
}

-- The abstract queue: what has been taken from it, and what waits in it.
pub record Queue (M : Type 0) : Type 0 where
  pub taken : List M
  pub queued : List M

pub data Action (M : Type 0) : Type 0 where
  put : M → Action M
  take_one : Action M
  idle : Action M

module _ {M : Type 0} where
  abbrev take_first : List M → List M → Queue M
  take_first taken [] = record { taken = taken; queued = [] }
  take_first taken (m ∷ rest) = record { taken = taken ++ m ∷ []; queued = rest }

  abbrev pub act : Action M → Queue M → Queue M
  act (put m) q = record q { queued = q.queued ++ m ∷ [] }
  act take_one q = take_first q.taken q.queued
  act idle q = q

  abbrev pub act_all : List (Action M) → Queue M → Queue M
  act_all [] q = q
  act_all (a ∷ acts) q = act_all acts (act a q)

  abbrev pub puts : List (Action M) → List M
  puts [] = []
  puts (put m ∷ acts) = m ∷ puts acts
  puts (take_one ∷ acts) = puts acts
  puts (idle ∷ acts) = puts acts

  take_first-same : (t l : List M) → (take_first t l).taken ++ (take_first t l).queued ≡ t ++ l
  take_first-same t [] = refl
  take_first-same t (m ∷ rest) = append_assoc t (m ∷ []) rest

  -- An abstract queue keeps what it is given, in order.
  act_all-order :
      (acts : List (Action M)) (q : Queue M)
      → (act_all acts q).taken ++ (act_all acts q).queued ≡ (q.taken ++ q.queued) ++ puts acts
  act_all-order [] q = sym (append-nil (q.taken ++ q.queued))
  act_all-order (put m ∷ acts) q =
      act_all-order acts (act (put m) q)
      ∙ ap (λ l. l ++ puts acts) (sym (append_assoc q.taken q.queued (m ∷ [])))
      ∙ append_assoc (q.taken ++ q.queued) (m ∷ []) (puts acts)
  act_all-order (take_one ∷ acts) q =
      act_all-order acts (act take_one q)
      ∙ ap (λ l. l ++ puts acts) (take_first-same q.taken q.queued)
  act_all-order (idle ∷ acts) q = act_all-order acts q

module _ {M : Type 0} where
  abbrev held : Option (InnerMessage M) → List (InnerMessage M)
  held none = []
  held (some m) = m ∷ []

  -- The queue that a connection is.
  abbrev pub queue_of : GrpcConnection M → Queue (InnerMessage M)
  queue_of c = record { taken = c.written; queued = c.out_chan ++ held c.waiting }

  -- What an event is to the queue: a `Send` that gets the lock puts its message in.
  abbrev pub action : Event M → GrpcConnection M → Action (InnerMessage M)
  action (send m) c = elim c.waiting [ none ↦ put m | some _ ↦ idle ]
  action (write_message sent) c = if c.writing then take_one else idle
  action _ c = idle

  abbrev pub actions : List (Event M) → GrpcConnection M → List (Action (InnerMessage M))
  actions [] c = []
  actions (e ∷ es) c = action e c ∷ actions es (step e c)

  write_next-act :
      (sent : Bool) (l : List (InnerMessage M)) (c : GrpcConnection M)
      → c.out_chan ≡ l
      → Within c
      → queue_of (write_next sent l c) ≡ act take_one (queue_of c)
  unfolding write_next refill
  write_next-act sent [] c e h = elim (Option-cases c.waiting) [
    | inl free ↦ ground (arith, e, free)
    | inr (w, here) ↦ absurd (ground (arith, h.full, e, here))
  ]
  write_next-act sent (m ∷ rest) c e h = elim (Option-cases c.waiting) [
    | inl free ↦ ground (arith, e, free)
    | inr (w, here) ↦ ground (arith, e, here, append-nil (rest ++ w ∷ []))
  ]

  received-same :
      (envelope : Option M) (c : GrpcConnection M) → queue_of (received envelope c) ≡ queue_of c
  unfolding received
  received-same none c = ground arith
  received-same (some m) c = ground arith

  serve_next-same : (l : List M) (c : GrpcConnection M) → queue_of (serve_next l c) ≡ queue_of c
  unfolding serve_next
  serve_next-same [] c = refl
  serve_next-same (m ∷ rest) c = refl

  step-act :
      (e : Event M) (c : GrpcConnection M)
      → Within c
      → queue_of (step e c) ≡ act (action e c) (queue_of c)
  unfolding step send_message close_connection received serve_next
  step-act (send m) c h = elim (Option-cases c.waiting) [
    | inl free ↦ elim (Bool-cases (ltb (length c.out_chan) chan_size)) [
      | inl room ↦
          ground (arith, free, room, append-nil (c.out_chan ++ m ∷ []), append-nil c.out_chan)
      | inr full ↦ ground (arith, free, full, append-nil c.out_chan)
    ]
    | inr (w, here) ↦ ground (arith, here)
  ]
  step-act close c h = ground arith
  step-act handle c h = refl
  step-act write_test c h = refl
  step-act write_stop c h = ground arith
  step-act (write_message sent) c h = elim (Bool-cases c.writing) [
    | inl on ↦ ground (arith, on, write_next-act sent c.out_chan c refl h)
    | inr off ↦ ground (arith, off)
  ]
  step-act read_test c h = refl
  step-act (receive envelope) c h = elim (Bool-cases c.reading) [
    | inl on ↦ ground (arith, on, received-same envelope c)
    | inr off ↦ ground (arith, off)
  ]
  step-act start_test c h = refl
  step-act start_stop c h = ground arith
  step-act start_error c h = ground arith
  step-act start_message c h = elim (Bool-cases c.serving) [
    | inl on ↦ ground (arith, on, serve_next-same c.read_chan c)
    | inr off ↦ ground (arith, off)
  ]

  run-act_all :
      (es : List (Event M)) (c : GrpcConnection M)
      → Within c
      → queue_of (run es c) ≡ act_all (actions es c) (queue_of c)
  unfolding run
  run-act_all [] c h = refl
  run-act_all (e ∷ es) c h =
      run-act_all es (step e c) (step-Within e c h)
      ∙ ap (act_all (actions es (step e c))) (step-act e c h)

  -- A connection implements a queue without a bound. After any history of a new connection, what it
  -- has written and what it holds are those of the abstract queue after the actions that the events
  -- are to it: a `Send` that gets the lock puts its message in, whether or not it returns, and a
  -- turn of `writeStream` takes the oldest one. What has been written and what is held are together
  -- the messages that were put in, in order.
  pub refines_queue :
      (ip : Address) (id : String) (es : List (Event M)) {c : GrpcConnection M}
      → new_connection ip id true ≡ some c
      → (queue_of (run es c) ≡ act_all (actions es c) (record { taken = []; queued = [] }))
        × ((run es c).written ++ (queue_of (run es c)).queued ≡ puts (actions es c))
  unfolding new_connection
  refines_queue ip id es {c} e =
      let start : queue_of c ≡ record { taken = []; queued = [] } =
        ap queue_of (sym (some-injective _ _ e)) in
      let same = run-act_all es c (new-Within ip id e) ∙ ap (act_all (actions es c)) start in
      (
        same,
        ap (λ (q : Queue (InnerMessage M)). q.taken ++ q.queued) same
            ∙ act_all-order (actions es c) (record { taken = []; queued = [] }),
      )
