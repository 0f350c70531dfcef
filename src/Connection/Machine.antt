-- ===== src/Connection/Machine.antt =====
-- `connection_state_machine`. What the functions that it calls do in one pass of its loop is `Pass`.
pub mod Edges
pub mod Response
pub mod Invariant
pub mod Ends
use lighttpd_autothumb.Connection.Read.{
  State, connect, request_start, reading, request_end, read_post, handle_request, response_start,
  writing, response_end, error, close, state_index, Method, head, served, options, other,
  Connection, Received, handle_read_state,
}
use lighttpd_autothumb.Base.{
  ℕ, ◌+◌, ◌-◌, Bool, true, false, not, ◌&&◌, ◌||◌, Option, none, some, List, [], ◌∷◌, ltb, leb,
  ◌==◌, if◌then◌else◌,
}

-- What `http_response_prepare` returns; `unknown` is any other value.
pub data Handler : Type 0 where
  finished wait_for_fd comeback wait_for_event failed_request unknown : Handler

-- What `network_write_chunkqueue` returns.
pub data Written : Type 0 where
  all_written failed_here failed_remote not_finished unknown_result : Written

-- The time; the results of `http_request_parse`, `http_response_prepare`, `connection_handle_read`,
-- `network_write_chunkqueue`, `shutdown` and `read`; and what the response is, as far as
-- `connection_handle_write_prepare` asks for it. `path_given` is whether the path does not begin with
-- `*`, and `length_known` whether the response has a length or is chunked.
pub record Pass : Type 0 where
  pub cur_ts : ℕ
  pub parsed_body : Bool
  pub parsed_status : ℕ
  pub parsed_keep_alive : Bool
  pub parsed_length : ℕ
  pub parsed_method : Method
  pub handler : Handler
  pub handler_status : ℕ
  pub handler_direct : Bool
  pub handler_file_finished : Bool
  pub error_handler : Bool
  pub path_given : Bool
  pub length_known : Bool
  pub backend_connection : Bool
  pub backend_keep_alive : Bool
  pub max_keep_alive_requests : ℕ
  pub max_keep_alive_idle : ℕ
  pub arrived : Received
  pub writes : ℕ
  pub queue_empty : Bool
  pub written : Written
  pub shut_down : Bool
  pub peer_gone : Bool

-- The parts of `connection_reset` that the machine reads.
unfoldable pub connection_reset : Connection → Connection
connection_reset con = record con {
  is_writable = true;
  http_status = 0;
  file_finished = false;
  method = other;
  direct = true;
  request = [];
  content_length = 0;
  bytes_in = 0;
  content = [];
  in_error_handler = false;
}

-- `HANDLER_FINISHED`, behind the error handler.
unfoldable pub answer : ℕ → Connection → Connection
answer status con = record con {
  http_status = if status == 0 then 200 else status;
  state = response_start;
}

-- `HANDLER_FINISHED`; and whether the loop is to go on in the same state.
unfoldable pub finish : Pass → Connection → Connection × Bool
finish pass con =
    if con.direct && (con.http_status == 404 || con.http_status == 403)
    then (if not con.in_error_handler && pass.error_handler
        then (
          record con {
            error_handler_saved_status = con.http_status;
            http_status = 0;
            in_error_handler = true;
            state = handle_request;
          },
          true,
        )
        else if con.in_error_handler
        then (answer con.error_handler_saved_status con, false)
        else (answer con.http_status con, false))
    else (answer con.http_status con, false)

unfoldable pub handle_result : Pass → Connection → Handler → Connection × Bool
handle_result pass con finished = finish pass con
handle_result pass con wait_for_fd = (record con { state = handle_request }, false)
handle_result pass con comeback = (record con { state = handle_request }, true)
handle_result pass con wait_for_event = (record con { state = handle_request }, false)
handle_result pass con failed_request = (record con { state = error }, false)
handle_result pass con unknown = (con, false)

unfoldable pub handle : Pass → Connection → Connection × Bool
handle pass con =
    let con' = record con {
      http_status = pass.handler_status;
      direct = pass.handler_direct;
      file_finished = pass.handler_file_finished;
    } in
    handle_result pass con' pass.handler

-- The status, by the method of a request that no module handles.
unfoldable pub method_status : Pass → Connection → Method → Connection
method_status pass con head = con
method_status pass con served = con
method_status pass con options =
    if (con.http_status == 0 || con.http_status == 200) && pass.path_given
    then record con { http_status = 200; file_finished = true }
    else con
method_status pass con other =
    if con.http_status == 400
      || con.http_status == 414
      || con.http_status == 505
      || con.http_status == 207
    then con
    else record con { http_status = 501 }

-- A response without a body, and the page of an error.
unfoldable pub finish_content : Connection → Connection
finish_content con =
    if con.http_status == 204 || con.http_status == 205 || con.http_status == 304
    then record con { file_finished = true }
    else if con.direct && leb 400 con.http_status && ltb con.http_status 600
    then record con { file_finished = true }
    else con

-- A response of unknown length ends with the connection.
unfoldable pub restrict_keep_alive : Pass → Connection → Connection
restrict_keep_alive pass con =
    if con.file_finished
    then con
    else if not pass.length_known || (pass.backend_connection && not pass.backend_keep_alive)
    then record con { keep_alive = false }
    else con

unfoldable pub finish_head : Connection → Method → Connection
finish_head con head = record con { file_finished = true }
finish_head con served = con
finish_head con options = con
finish_head con other = con

-- The begin of `http_response_write_header`.
unfoldable pub limit_keep_alive : Pass → Connection → Connection
limit_keep_alive pass con =
    if ltb pass.max_keep_alive_requests con.request_count || pass.max_keep_alive_idle == 0
    then record con { keep_alive = false }
    else con

-- `connection_handle_write_prepare`, as far as the status and the connection go.
unfoldable pub write_prepare : Pass → Connection → Connection
write_prepare pass con =
    let con1 = if con.direct then method_status pass con con.method else con in
    let con2 = if con1.http_status == 0 then record con1 { http_status = 403 } else con1 in
    let con3 = restrict_keep_alive pass (finish_content con2) in
    limit_keep_alive pass (finish_head con3 con3.method)

-- `connection_handle_write`.
unfoldable pub handle_write : Written → Connection → Connection
handle_write all_written con =
    if con.file_finished then record con { state = response_end } else con
handle_write failed_here con = record con { state = error }
handle_write failed_remote con = record con { state = error }
handle_write not_finished con = record con { is_writable = false }
handle_write unknown_result con = con

-- `shutdown`, or else `connection_close`.
unfoldable pub leave : Pass → Connection → Connection
leave pass con =
    if pass.shut_down
    then record con { close_timeout_ts = pass.cur_ts; state = close }
    else record con { state = connect }

-- `HTTP_LINGER_TIMEOUT` is 5.
unfoldable pub time_out : Pass → Connection → Connection
time_out pass con =
    if ltb 5 (pass.cur_ts - con.close_timeout_ts) then record con { state = connect } else con

-- `CON_STATE_CLOSE`.
unfoldable pub linger : Pass → Connection → Connection
linger pass con = time_out pass (record con {
  close_timeout_ts = if pass.peer_gone then pass.cur_ts - 6 else con.close_timeout_ts;
})

unfoldable pub parse : Pass → Connection → Connection
parse pass con = record con {
  http_status = pass.parsed_status;
  keep_alive = pass.parsed_keep_alive;
  content_length = pass.parsed_length;
  method = pass.parsed_method;
  state = if pass.parsed_body then read_post else handle_request;
}

-- The switch over the state; and whether the loop is to go on in the same state.
unfoldable pub step_in : Pass → State → Connection → Connection × Bool
step_in pass connect con =
    (record con { request_count = 0; read_queue = []; read_offsets = [] }, false)
step_in pass request_start con =
    (record con { request_count = con.request_count + 1; state = reading }, false)
step_in pass reading con = (handle_read_state pass.arrived pass.writes con, false)
step_in pass request_end con = (parse pass con, false)
step_in pass read_post con = (handle_read_state pass.arrived pass.writes con, false)
step_in pass handle_request con = handle pass con
step_in pass response_start con = (record (write_prepare pass con) { state = writing }, false)
step_in pass writing con =
    (if not pass.queue_empty && con.is_writable then handle_write pass.written con else con, false)
step_in pass response_end con = (
  connection_reset
      (if con.keep_alive then record con { state = request_start } else leave pass con),
  false,
)
step_in pass error con = (record (leave pass (connection_reset con)) { keep_alive = false }, false)
step_in pass close con = (linger pass con, false)

-- One pass of the loop.
unfoldable pub step : Pass → Connection → Connection × Bool
step pass con = step_in pass con.state con

-- The loop, as long as there are passes; it ends when a pass does not change the state.
unfoldable pub machine : List Pass → Connection → Option Connection
machine [] con = none
machine (pass ∷ passes) con =
    let next = step pass con in
    let rest = machine passes next.0 in
    if next.1
    then rest
    else if state_index con.state == state_index next.0.state
    then some next.0
    else rest
