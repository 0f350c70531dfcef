-- ===== src/Tests/Connections.antt =====
-- The connection, on concrete inputs.
use lighttpd_autothumb.Connection.Header.{
  take_header, search, search_chunk, match_from, match_chunks, match_chunk, behind, copy_header,
  remove_finished,
}
use lighttpd_autothumb.Connection.Header.Found.{
  text_of, split_header, concat, take_header-split_header,
}
use lighttpd_autothumb.Connection.Read.{
  reading, grow_last, advanced, unfinished_offsets, close, handle_read_state, read_branch,
  read_header, closed_by_peer, total, request_start, error, handle_request, state_index, other,
  served, received, Connection, move_body,
}
use lighttpd_autothumb.Connection.Read.Body.{BodyTaken, move_body-BodyTaken}
use lighttpd_autothumb.Connection.Machine.{
  Pass, machine, step, step_in, handle, handle_result, finish, answer, write_prepare, method_status,
  finish_content, restrict_keep_alive, finish_head, limit_keep_alive, handle_write, leave, linger,
  time_out, parse, connection_reset, finished, all_written,
}
use lighttpd_autothumb.Connection.Machine.Edges.{LongAfter, Edge, step-Edge}
use lighttpd_autothumb.Connection.Machine.Invariant.{IsValid, step-IsValid}
use lighttpd_autothumb.Connection.Machine.Ends.{
  rank, restarts, is_closing, machine-ends, machine-closing,
}
use lighttpd_autothumb.Base.{
  ◌+◌, ◌*◌, ◌<◌, ◌≡◌, refl, true, false, some, List, [], ◌∷◌, arith, length, replicate, Bytes,
  codes,
}

abbrev two_chunks : List Bytes
two_chunks = codes "GET / HTTP/1.0\r\n" ∷ codes "\r\nrest" ∷ []

take_header_runs :
    take_header two_chunks ≡ some (codes "GET / HTTP/1.0\r\n\r\n", [] ∷ codes "rest" ∷ [])
unfolding take_header search search_chunk match_from match_chunks match_chunk behind copy_header
take_header_runs = refl

take_header-split_header_example :
    text_of (take_header two_chunks) ≡ split_header (concat two_chunks)
take_header-split_header_example = take_header-split_header two_chunks

move_runs : (move_body 0 5 1 (codes "a") (codes "bc" ∷ codes "def" ∷ [])).denied ≡ false
unfolding move_body
move_runs = refl

move_body-BodyTaken_example :
    BodyTaken 5 1
      (codes "a")
      (codes "bc" ∷ codes "def" ∷ [])
      (move_body 0 5 1 (codes "a") (codes "bc" ∷ codes "def" ∷ []))
move_body-BodyTaken_example =
    move_body-BodyTaken 0 5 1 (codes "a") (codes "bc" ∷ codes "def" ∷ []) (omega arith) move_runs

-- A request for which there is nothing, and no error handler.
abbrev pass : Pass
pass = record {
  cur_ts = 1000;
  parsed_body = false;
  parsed_status = 0;
  parsed_keep_alive = false;
  parsed_length = 0;
  parsed_method = served;
  handler = finished;
  handler_status = 404;
  handler_direct = true;
  handler_file_finished = true;
  error_handler = true;
  path_given = true;
  length_known = true;
  backend_connection = false;
  backend_keep_alive = false;
  max_keep_alive_requests = 16;
  max_keep_alive_idle = 5;
  arrived = received false [] two_chunks;
  writes = 0;
  queue_empty = false;
  written = all_written;
  shut_down = true;
  peer_gone = false;
}

abbrev new_con : Connection
new_con = record {
  state = request_start;
  http_status = 0;
  error_handler_saved_status = 0;
  in_error_handler = false;
  keep_alive = false;
  request_count = 0;
  method = other;
  direct = true;
  file_finished = false;
  is_writable = true;
  close_timeout_ts = 0;
  read_queue = [];
  read_offsets = [];
  request = [];
  content_length = 0;
  bytes_in = 0;
  content = [];
}

abbrev handling : Connection
handling = record new_con { state = handle_request }

handling-IsValid : IsValid handling
unfolding state_index
handling-IsValid = ((λ h. refl), (λ h. absurd (cc h)), (λ h. absurd (cc h)))

step-IsValid_example : IsValid (step pass handling).0
step-IsValid_example = step-IsValid pass handling handling-IsValid

step-Edge_example :
    Edge (LongAfter pass.arrived handling) handle_request (step pass handling).0.state
step-Edge_example = step-Edge pass handling

abbrev passes : List Pass
passes = replicate 20 pass

passes-enough : rank new_con + 20 * restarts passes new_con < length passes
unfolding step step_in handle handle_result finish answer write_prepare method_status finish_content
    restrict_keep_alive finish_head limit_keep_alive handle_write leave linger time_out parse
    connection_reset state_index handle_read_state read_branch read_header closed_by_peer
    take_header search search_chunk match_from match_chunks match_chunk behind copy_header
    remove_finished total grow_last advanced unfinished_offsets
passes-enough = omega arith

machine-ends_example : (con' : Connection) × (machine passes new_con ≡ some con')
machine-ends_example = machine-ends passes new_con passes-enough

abbrev failed_con : Connection
failed_con = record new_con { state = error }

machine_runs :
    machine passes failed_con ≡ some (record failed_con { state = close; close_timeout_ts = 1000 })
unfolding machine step step_in handle handle_result finish answer write_prepare method_status
    finish_content restrict_keep_alive finish_head limit_keep_alive handle_write leave linger
    time_out parse connection_reset state_index handle_read_state read_branch read_header
    closed_by_peer take_header search search_chunk match_from match_chunks match_chunk behind
    copy_header remove_finished total grow_last advanced unfinished_offsets
machine_runs = refl

closing_now : is_closing failed_con.state ≡ true
unfolding state_index
closing_now = refl

machine-closing_example : is_closing close ≡ true
machine-closing_example =
    machine-closing passes failed_con (record failed_con { state = close; close_timeout_ts = 1000 })
      closing_now machine_runs

-- A request in one chunk, with the beginning of the next one behind it.
abbrev pipelined : Bytes
pipelined = codes "a\r\n\r\nbc"

offsets_runs :
    (handle_read_state
      (received false [] (pipelined ∷ []))
      0
      (record new_con { state = reading })).read_offsets
    ≡ 5 ∷ []
unfolding handle_read_state read_branch read_header closed_by_peer take_header search search_chunk
    match_from match_chunk copy_header remove_finished grow_last advanced unfinished_offsets behind
    match_chunks state_index
offsets_runs = refl
