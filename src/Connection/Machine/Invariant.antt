-- ===== src/Connection/Machine/Invariant.antt =====
-- What holds of a connection between the passes of the loop.

use lighttpd_autothumb.Connection.Machine.Response.{write_prepare-Answered}
use lighttpd_autothumb.Connection.Header.{take_header}
use lighttpd_autothumb.Connection.Read.{
  State, connect, request_start, reading, request_end, read_post, handle_request, response_start,
  writing, response_end, error, close, state_index, Connection, Received, failed, received,
  read_header, read_body, read_branch, closed_by_peer, handle_read_state, put_arrived, total,
  move_body, put_moved, deny, content_ready,
}
use lighttpd_autothumb.Connection.Machine.{
  Handler, finished, wait_for_fd, comeback, wait_for_event, failed_request, unknown, Written,
  all_written, failed_here, failed_remote, not_finished, unknown_result, Pass, connection_reset,
  answer, finish, handle, handle_result, step_in, handle_write, leave, linger, time_out, parse,
  step,
}
use lighttpd_autothumb.Connection.Machine.Edges.{if_both}
use lighttpd_autothumb.Base.{
  if_cases, ℕ, ◌-◌, ◌*◌, ◌≡◌, refl, sym, ◌∙◌, ◌≢◌, ◌⊎◌, inl, inr, Bool, true, false, not, ◌&&◌,
  ◌||◌, arith, ltb, ◌==◌, if◌then◌else◌, Option-cases,
}

-- The states in front of the handling of a request, and the state of closing.
abbrev pub is_fresh : State → Bool
is_fresh s = ltb (state_index s) 5 || state_index s == 10

abbrev pub is_answering : State → Bool
is_answering s = ltb 5 (state_index s) && ltb (state_index s) 9

-- No error handler is at work on a request that is not handled yet; the status that an error handler
-- saves is 403 or 404; and a response has a status.
abbrev pub IsValid : Connection → Type 0
IsValid con =
    (is_fresh con.state ≡ true → con.in_error_handler ≡ false)
    × (con.in_error_handler ≡ true
        → (con.error_handler_saved_status ≡ 403) ⊎ (con.error_handler_saved_status ≡ 404))
    × (is_answering con.state ≡ true → con.http_status ≢ 0)

-- The error handler is left alone, and no response is begun.
abbrev Kept : Connection → Connection → Type 0
Kept con con' =
    (con'.in_error_handler ≡ con.in_error_handler)
    × (con'.error_handler_saved_status ≡ con.error_handler_saved_status)
    × (is_answering con'.state ≡ false)

header-Kept : (con : Connection) → is_answering con.state ≡ false → Kept con (read_header con)
unfolding read_header state_index
header-Kept con h = elim (Option-cases (take_header con.read_queue)) [
  | inl n ↦
      rw (n, read_header)
        (if_both (Kept con) (ltb (64 * 1024) (total con.read_queue con.read_offsets))
          (record con { http_status = 414; keep_alive = false; state = handle_request }) con
          (refl, refl, refl) (refl, refl, h))
  | inr ((text, rest), to) ↦ rw (to, read_header) (refl, refl, refl)
]

body-Kept :
    (writes : ℕ) (con : Connection)
    → is_answering con.state ≡ false
    → Kept con (read_body writes con)
unfolding read_body put_moved deny content_ready state_index
body-Kept writes con h =
    ready _
      (denied (move_body writes con.content_length con.bytes_in con.content con.read_queue).denied)
  where
    denied :
        (d : Bool)
        → Kept con (
            deny d (
              put_moved
                (move_body writes con.content_length con.bytes_in con.content con.read_queue)
                con))
    denied true = (refl, refl, refl)
    denied false = (refl, refl, h)

    ready : (x : Connection) → Kept con x → Kept con (content_ready x)
    ready x k =
        if_both (Kept con) (x.bytes_in == x.content_length) (record x { state = handle_request }) x
          (k.0, k.1, refl) k

branch-Kept :
    (writes : ℕ) (s : State) (con : Connection)
    → is_answering con.state ≡ false
    → Kept con (read_branch writes s con)
unfolding read_branch
branch-Kept writes connect con h = (refl, refl, h)
branch-Kept writes request_start con h = (refl, refl, h)
branch-Kept writes reading con h = header-Kept con h
branch-Kept writes request_end con h = (refl, refl, h)
branch-Kept writes read_post con h = body-Kept writes con h
branch-Kept writes handle_request con h = (refl, refl, h)
branch-Kept writes response_start con h = (refl, refl, h)
branch-Kept writes writing con h = (refl, refl, h)
branch-Kept writes response_end con h = (refl, refl, h)
branch-Kept writes error con h = (refl, refl, h)
branch-Kept writes close con h = (refl, refl, h)

read-Kept :
    (r : Received) (writes : ℕ) (con : Connection)
    → is_answering con.state ≡ false
    → Kept con (handle_read_state r writes con)
unfolding handle_read_state closed_by_peer state_index
read-Kept failed writes con h = (refl, refl, refl)
read-Kept (received closed more chunks) writes con h =
    let con1 : Connection = put_arrived more chunks con in
    let con2 = read_branch writes con.state con1 in
    let k = branch-Kept writes con.state con1 h in
    if_both (Kept con) (closed && state_index con.state == state_index con2.state)
      (record con2 { state = error }) con2 (k.0, k.1, refl) k

-- A request that is read: no error handler is at work.
read-IsValid :
    (r : Received) (writes : ℕ) (con : Connection)
    → is_fresh con.state ≡ true
    → is_answering con.state ≡ false
    → IsValid con
    → IsValid (handle_read_state r writes con)
read-IsValid r writes con fresh quiet (f, s, a) =
    let k = read-Kept r writes con quiet in
    ((λ u. k.0 ∙ f fresh), (λ t. absurd (cc (k.0, f fresh, t))), (λ t. absurd (cc (k.2, t))))

answer-IsValid :
    (status : ℕ) (con : Connection)
    → (con.in_error_handler ≡ true
        → (con.error_handler_saved_status ≡ 403) ⊎ (con.error_handler_saved_status ≡ 404))
    → IsValid (answer status con)
unfolding answer state_index
answer-IsValid status con h = ((λ t. absurd (cc t)), h, (λ t z. ground (arith, z)))

finish-IsValid :
    (pass : Pass) (con : Connection)
    → (con.in_error_handler ≡ true
        → (con.error_handler_saved_status ≡ 403) ⊎ (con.error_handler_saved_status ≡ 404))
    → IsValid (finish pass con).0
unfolding finish state_index
finish-IsValid pass con h =
    if_cases (λ (r : Connection × Bool). IsValid r.0)
      (con.direct && (con.http_status == 404 || con.http_status == 403)) _ _
      (λ missing.
        if_cases (λ (r : Connection × Bool). IsValid r.0)
          (not con.in_error_handler && pass.error_handler) _ _
          (λ t. ((λ u. absurd (cc u)), (λ u. ground (arith, missing)), (λ u. absurd (cc u))))
          (λ f.
            if_cases (λ (r : Connection × Bool). IsValid r.0) con.in_error_handler _ _
              (λ t. answer-IsValid con.error_handler_saved_status con h)
              (λ g. answer-IsValid con.http_status con h)))
      (λ f. answer-IsValid con.http_status con h)

result-IsValid :
    (pass : Pass) (con : Connection) (r : Handler)
    → con.state ≡ handle_request
    → (con.in_error_handler ≡ true
        → (con.error_handler_saved_status ≡ 403) ⊎ (con.error_handler_saved_status ≡ 404))
    → IsValid (handle_result pass con r).0
unfolding handle_result state_index
result-IsValid pass con finished is h = finish-IsValid pass con h
result-IsValid pass con wait_for_fd is h = ((λ u. absurd (cc u)), h, (λ u. absurd (cc u)))
result-IsValid pass con comeback is h = ((λ u. absurd (cc u)), h, (λ u. absurd (cc u)))
result-IsValid pass con wait_for_event is h = ((λ u. absurd (cc u)), h, (λ u. absurd (cc u)))
result-IsValid pass con failed_request is h = ((λ u. absurd (cc u)), h, (λ u. absurd (cc u)))
result-IsValid pass con unknown is h =
    ((λ u. absurd (cc (rw is at u))), h, (λ u. absurd (cc (rw is at u))))

write-IsValid :
    (w : Written) (con : Connection)
    → con.state ≡ writing
    → IsValid con
    → IsValid (handle_write w con)
unfolding handle_write state_index
write-IsValid all_written con is (f, s, a) =
    if_both IsValid con.file_finished (record con { state = response_end }) con
      ((λ u. absurd (cc u)), s, (λ u. a (rw is refl))) (f, s, a)
write-IsValid failed_here con is (f, s, a) = ((λ u. absurd (cc u)), s, (λ u. absurd (cc u)))
write-IsValid failed_remote con is (f, s, a) = ((λ u. absurd (cc u)), s, (λ u. absurd (cc u)))
write-IsValid not_finished con is v = v
write-IsValid unknown_result con is v = v

-- A connection that is reset, and goes to a state in which no response is made.
reset-IsValid :
    (con : Connection) → con.in_error_handler ≡ false → is_answering con.state ≡ false → IsValid con
reset-IsValid con r q = ((λ u. r), (λ t. absurd (cc (r, t))), (λ t. absurd (cc (q, t))))

quiet : (pass : Pass) (con : Connection) → is_answering (leave pass con).state ≡ false
unfolding leave state_index
quiet pass con =
    if_both (λ (x : Connection). is_answering x.state ≡ false) pass.shut_down
      (record con { close_timeout_ts = pass.cur_ts; state = close })
      (record con { state = connect }) refl refl

left :
    (pass : Pass) (con : Connection)
    → con.in_error_handler ≡ false
    → ((leave pass con).in_error_handler ≡ false) × (is_answering (leave pass con).state ≡ false)
unfolding leave state_index
left pass con r =
    if_both (λ (x : Connection). (x.in_error_handler ≡ false) × (is_answering x.state ≡ false))
      pass.shut_down (record con { close_timeout_ts = pass.cur_ts; state = close })
      (record con { state = connect }) (r, refl) (r, refl)

step_in-IsValid :
    (pass : Pass) (s : State) (con : Connection)
    → con.state ≡ s
    → IsValid con
    → IsValid (step_in pass s con).0
unfolding step_in handle parse linger time_out connection_reset state_index
step_in-IsValid pass connect con is v = v
step_in-IsValid pass request_start con is (f, s, a) =
    ((λ u. f (rw is refl)), s, (λ u. absurd (cc u)))
step_in-IsValid pass reading con is v =
    read-IsValid pass.arrived pass.writes con (rw is refl) (rw is refl) v
step_in-IsValid pass request_end con is (f, s, a) =
    let read =
      if_both (λ t. is_answering t ≡ false) pass.parsed_body read_post handle_request refl refl in
    ((λ u. f (rw is refl)), s, (λ u. absurd (cc (read, u))))
step_in-IsValid pass read_post con is v =
    read-IsValid pass.arrived pass.writes con (rw is refl) (rw is refl) v
step_in-IsValid pass handle_request con is (f, s, a) = result-IsValid pass _ pass.handler is s
step_in-IsValid pass response_start con is (f, s, a) =
    let k = write_prepare-Answered pass con in
    ((λ u. absurd (cc u)), (λ t. rw k.1 (s (sym k.0 ∙ t))), (λ u. k.2))
step_in-IsValid pass writing con is v =
    if_both IsValid (not pass.queue_empty && con.is_writable) (handle_write pass.written con) con
      (write-IsValid pass.written con is v) v
step_in-IsValid pass response_end con is v =
    reset-IsValid
      (connection_reset
        (if con.keep_alive then record con { state = request_start } else leave pass con))
      refl
      (if_both (λ (x : Connection). is_answering x.state ≡ false) con.keep_alive
        (record con { state = request_start }) (leave pass con) refl (quiet pass con))
step_in-IsValid pass error con is v =
    let k = left pass (connection_reset con) refl in
    reset-IsValid (record (leave pass (connection_reset con)) { keep_alive = false }) k.0 k.1
step_in-IsValid pass close con is (f, s, a) =
    if_both IsValid
      (ltb 5 (pass.cur_ts - (if pass.peer_gone then pass.cur_ts - 6 else con.close_timeout_ts))) _ _
      ((λ u. f (rw is refl)), s, (λ u. absurd (cc u))) (f, s, a)

-- Each pass of the loop keeps that no error handler is at work on a request that is not handled yet,
-- that the status that an error handler saves is 403 or 404, and that a response has a status.
pub step-IsValid : (pass : Pass) (con : Connection) → IsValid con → IsValid (step pass con).0
unfolding step
step-IsValid pass con v = step_in-IsValid pass con.state con refl v
