-- ===== src/Connection/Machine/Edges.antt =====
-- The transitions of the machine.
use mathlib.Core.Path.{subst}
use lighttpd_autothumb.Connection.Header.{take_header}
use lighttpd_autothumb.Connection.Read.{
  State, connect, request_start, reading, request_end, read_post, handle_request, response_start,
  writing, response_end, error, close, state_index, Connection, Received, failed, received,
  read_header, read_body, read_branch, closed_by_peer, handle_read_state, put_arrived, total,
  put_moved, deny, content_ready,
}
use lighttpd_autothumb.Connection.Machine.{
  Handler, finished, wait_for_fd, comeback, wait_for_event, failed_request, unknown, Written,
  all_written, failed_here, failed_remote, not_finished, unknown_result, Pass, connection_reset,
  answer, finish, handle, handle_result, step_in, handle_write, leave, linger, time_out, parse,
  step,
}
use lighttpd_autothumb.Base.{
  ℕ, ◌-◌, ◌*◌, ◌≡◌, refl, sym, inl, inr, Bool, true, false, not, ◌&&◌, ◌||◌, ltb, ◌==◌,
  if◌then◌else◌, Option-cases, ◌<◌, none, if_cases, ltb→lt,
}

-- The arrows of doc/state.dot that the machine takes, and those that the diagram does not have: from
-- the reading of a header to the handling (`too_long`), from the end of a response to the closing
-- (`response_closes`), and from any state to itself. `Long` is what lets a header be too long.
pub data Edge (Long : Type 0) : State → State → Type 0 where
  stays : {s : State} → Edge Long s s
  starts : Edge Long request_start reading
  has_header : Edge Long reading request_end
  too_long : Long → Edge Long reading handle_request
  reads_failed : Edge Long reading error
  has_body : Edge Long request_end read_post
  no_body : Edge Long request_end handle_request
  body_done : Edge Long read_post handle_request
  body_failed : Edge Long read_post error
  handled : Edge Long handle_request response_start
  handle_failed : Edge Long handle_request error
  writes_response : Edge Long response_start writing
  write_done : Edge Long writing response_end
  write_failed : Edge Long writing error
  kept_alive : Edge Long response_end request_start
  response_closes : Edge Long response_end close
  response_disconnects : Edge Long response_end connect
  error_closes : Edge Long error close
  error_disconnects : Edge Long error connect
  disconnects : Edge Long close connect

-- A choice between two results has what both have.
pub if_both {ℓ κ} :
    {A : Type ℓ} (p : A → Type κ) (b : Bool) (x y : A) → p x → p y → p (if b then x else y)
if_both p true x y h k = h
if_both p false x y h k = k

-- No empty line has arrived yet, although the queue has more than 64 kB, with what is taken of its
-- first chunk.
abbrev pub IsLong : Connection → Type 0
IsLong con =
    (take_header con.read_queue ≡ none) × (64 * 1024 < total con.read_queue con.read_offsets)

-- The same, with what has arrived.
abbrev pub LongAfter : Received → Connection → Type 0
LongAfter failed con = ⊥
LongAfter (received closed more chunks) con = IsLong (put_arrived more chunks con)

data Reads : State → Type 0 where
  in_header : Reads reading
  in_body : Reads read_post

abbrev From : Type 0 → State → Connection → Type 0
From Long s con = Edge Long s con.state

module _ {Long : Type 0} where
  self : {s t : State} → t ≡ s → Edge Long s t
  self {s = s} is = subst (Edge Long s) (sym is) stays

  finish-Edge : (pass : Pass) (con : Connection) → From Long handle_request (finish pass con).0
  unfolding finish answer
  finish-Edge pass con =
      if_both (λ (r : Connection × Bool). From Long handle_request r.0)
        (con.direct && (con.http_status == 404 || con.http_status == 403)) _ _
        (if_both (λ (r : Connection × Bool). From Long handle_request r.0)
          (not con.in_error_handler && pass.error_handler) _ _ stays
          (if_both (λ (r : Connection × Bool). From Long handle_request r.0) con.in_error_handler _
            _ handled handled))
        handled

  result-Edge :
      (pass : Pass) (con : Connection) (h : Handler)
      → con.state ≡ handle_request
      → From Long handle_request (handle_result pass con h).0
  unfolding handle_result
  result-Edge pass con finished is = finish-Edge pass con
  result-Edge pass con wait_for_fd is = stays
  result-Edge pass con comeback is = stays
  result-Edge pass con wait_for_event is = stays
  result-Edge pass con failed_request is = handle_failed
  result-Edge pass con unknown is = self is

  write-Edge :
      (w : Written) (con : Connection)
      → con.state ≡ writing
      → From Long writing (handle_write w con)
  unfolding handle_write
  write-Edge all_written con is =
      if_both (From Long writing) con.file_finished (record con { state = response_end }) con
        write_done (self is)
  write-Edge failed_here con is = write_failed
  write-Edge failed_remote con is = write_failed
  write-Edge not_finished con is = self is
  write-Edge unknown_result con is = self is

  header-Edge :
      (con : Connection)
      → (IsLong con → Long)
      → con.state ≡ reading
      → From Long reading (read_header con)
  unfolding read_header
  header-Edge con long is = elim (Option-cases (take_header con.read_queue)) [
    | inl n ↦
        rw (n, read_header)
          (if_cases (From Long reading) (ltb (64 * 1024) (total con.read_queue con.read_offsets))
            (record con { http_status = 414; keep_alive = false; state = handle_request }) con
            (λ t. too_long (long (n, ltb→lt _ _ t))) (λ f. self is))
    | inr ((text, rest), to) ↦ rw (to, read_header) has_header
  ]

  deny-Edge :
      (denied : Bool) (con : Connection)
      → con.state ≡ read_post
      → From Long read_post (deny denied con)
  unfolding deny
  deny-Edge true con is = body_done
  deny-Edge false con is = self is

  ready-Edge :
      (con : Connection) → From Long read_post con → From Long read_post (content_ready con)
  unfolding content_ready
  ready-Edge con h =
      if_both (From Long read_post) (con.bytes_in == con.content_length)
        (record con { state = handle_request }) con body_done h

  body-Edge :
      (writes : ℕ) (con : Connection)
      → con.state ≡ read_post
      → From Long read_post (read_body writes con)
  unfolding read_body put_moved
  body-Edge writes con is = ready-Edge _ (deny-Edge _ _ is)

  closed-Edge :
      (closed : Bool) (s : State) (con : Connection)
      → Edge Long s error
      → From Long s con
      → From Long s (closed_by_peer closed s con)
  unfolding closed_by_peer
  closed-Edge closed s con e h =
      if_both (From Long s) (closed && state_index s == state_index con.state)
        (record con { state = error }) con e h

  branch-Edge :
      {s : State} (closed : Bool) (writes : ℕ) (con : Connection)
      → (IsLong con → Long)
      → Reads s
      → con.state ≡ s
      → From Long s (closed_by_peer closed s (read_branch writes s con))
  unfolding read_branch
  branch-Edge closed writes con long in_header is =
      closed-Edge closed reading (read_header con) reads_failed (header-Edge con long is)
  branch-Edge closed writes con long in_body is =
      closed-Edge closed read_post (read_body writes con) body_failed (body-Edge writes con is)

  Reads-error : {s : State} → Reads s → Edge Long s error
  Reads-error in_header = reads_failed
  Reads-error in_body = body_failed

  read-Edge :
      (s : State) (r : Received) (writes : ℕ) (con : Connection)
      → (LongAfter r con → Long)
      → Reads s
      → con.state ≡ s
      → From Long s (handle_read_state r writes con)
  unfolding handle_read_state
  read-Edge s failed writes con long h is = Reads-error h
  read-Edge s (received closed more chunks) writes con long h is =
      subst
        (λ t.
          Edge Long s
            (closed_by_peer closed t (read_branch writes t (put_arrived more chunks con))).state)
        (sym is) (branch-Edge closed writes (put_arrived more chunks con) long h is)

  leave-Edge :
      (s : State) (pass : Pass) (con : Connection)
      → Edge Long s close
      → Edge Long s connect
      → From Long s (leave pass con)
  unfolding leave
  leave-Edge s pass con c d =
      if_both (From Long s) pass.shut_down
        (record con { close_timeout_ts = pass.cur_ts; state = close })
        (record con { state = connect }) c d

  time_out-Edge :
      (pass : Pass) (con : Connection) → con.state ≡ close → From Long close (time_out pass con)
  unfolding time_out
  time_out-Edge pass con is =
      if_both (From Long close) (ltb 5 (pass.cur_ts - con.close_timeout_ts))
        (record con { state = connect }) con disconnects (self is)

  step_in-Edge :
      (pass : Pass) (s : State) (con : Connection)
      → (LongAfter pass.arrived con → Long)
      → con.state ≡ s
      → From Long s (step_in pass s con).0
  unfolding step_in handle parse linger connection_reset
  step_in-Edge pass connect con long is = self is
  step_in-Edge pass request_start con long is = starts
  step_in-Edge pass reading con long is =
      read-Edge reading pass.arrived pass.writes con long in_header is
  step_in-Edge pass request_end con long is =
      if_both (Edge Long request_end) pass.parsed_body read_post handle_request has_body no_body
  step_in-Edge pass read_post con long is =
      read-Edge read_post pass.arrived pass.writes con long in_body is
  step_in-Edge pass handle_request con long is = result-Edge pass _ pass.handler is
  step_in-Edge pass response_start con long is = writes_response
  step_in-Edge pass writing con long is =
      if_both (From Long writing) (not pass.queue_empty && con.is_writable)
        (handle_write pass.written con) con (write-Edge pass.written con is) (self is)
  step_in-Edge pass response_end con long is =
      if_both (From Long response_end) con.keep_alive (record con { state = request_start })
        (leave pass con) kept_alive
        (leave-Edge response_end pass con response_closes response_disconnects)
  step_in-Edge pass error con long is =
      leave-Edge error pass (connection_reset con) error_closes error_disconnects
  step_in-Edge pass close con long is = time_out-Edge pass _ is

-- Each pass of the loop leaves the state as it is or follows an arrow of doc/state.dot, except that a
-- header that is too long leads from its reading to the handling of the request, and that the end of a
-- response also leads to the closing. A header is too long only if no empty line has arrived, and
-- the chunks of the queue, with what is taken of them, have more than 64 kB.
pub step-Edge :
    (pass : Pass) (con : Connection)
    → Edge (LongAfter pass.arrived con) con.state (step pass con).0.state
unfolding step
step-Edge pass con = step_in-Edge pass con.state con (λ long. long) refl
