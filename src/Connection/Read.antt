-- ===== src/Connection/Read.antt =====
-- `connection_handle_read_state`: the header of a request, and its body, are taken off the read queue.
pub mod Body
use lighttpd_autothumb.Connection.Header.{take_header, remove_finished}
use lighttpd_autothumb.Base.{
  ℕ, ◌+◌, ◌-◌, ◌*◌, Bool, true, false, ◌&&◌, none, some, List, [], ◌∷◌, ◌++◌, map, ltb, ◌==◌,
  if◌then◌else◌, length, take, drop, Bytes,
}

pub data State : Type 0 where
  connect request_start reading request_end read_post handle_request response_start writing
        response_end error close :
      State

-- The order of the enumeration.
unfoldable pub state_index : State → ℕ
state_index connect = 0
state_index request_start = 1
state_index reading = 2
state_index request_end = 3
state_index read_post = 4
state_index handle_request = 5
state_index response_start = 6
state_index writing = 7
state_index response_end = 8
state_index error = 9
state_index close = 10

-- The switches over the method in `connection_handle_write_prepare`: HEAD is served as well.
pub data Method : Type 0 where
  head served options other : Method

-- `direct` is whether the mode is `DIRECT`, and `error_handler` whether there is one, of the
-- connection or of its configuration. `read_queue` has what is left of each chunk, behind its offset in
-- `read_offsets`.
pub record Connection : Type 0 where
  pub state : State
  pub http_status : ℕ
  pub error_handler_saved_status : ℕ
  pub in_error_handler : Bool
  pub keep_alive : Bool
  pub request_count : ℕ
  pub method : Method
  pub direct : Bool
  pub file_finished : Bool
  pub is_writable : Bool
  pub close_timeout_ts : ℕ
  pub read_queue : List Bytes
  pub read_offsets : List ℕ
  pub request : Bytes
  pub content_length : ℕ
  pub bytes_in : ℕ
  pub content : Bytes

-- What `connection_handle_read` does: it fails, or it gives whether the peer has closed, what is read
-- into the free room of the last chunk, and what is read into new ones.
pub data Received : Type 0 where
  failed : Received
  received : Bool → Bytes → List Bytes → Received

-- `chunkqueue_length`: whole chunks, with the bytes in front of their offsets.
unfoldable pub total : List Bytes → List ℕ → ℕ
total [] offsets = 0
total (c ∷ cs) [] = length c + total cs []
total (c ∷ cs) (o ∷ offsets) = o + length c + total cs offsets

-- The offsets after bytes are taken: what was left of each chunk, and what is left of it now.
unfoldable pub advanced : List Bytes → List Bytes → List ℕ → List ℕ
advanced [] ds offsets = []
advanced (c ∷ cs) [] offsets = []
advanced (c ∷ cs) (d ∷ ds) [] = []
advanced (c ∷ cs) (d ∷ ds) (o ∷ offsets) = (o + (length c - length d)) ∷ advanced cs ds offsets

-- The offsets of the chunks that `remove_finished` leaves.
unfoldable pub unfinished_offsets : List Bytes → List ℕ → List ℕ
unfinished_offsets [] offsets = []
unfinished_offsets ([] ∷ cs) [] = []
unfinished_offsets ([] ∷ cs) (o ∷ offsets) = unfinished_offsets cs offsets
unfinished_offsets ((c ∷ s) ∷ cs) offsets = offsets

unfoldable pub read_header : Connection → Connection
read_header con = elim (take_header con.read_queue) [
  | some (text, rest) ↦ record con { request = text; read_queue = rest; state = request_end }
  | none ↦
      if ltb (64 * 1024) (total con.read_queue con.read_offsets)
      then record con { http_status = 414; keep_alive = false; state = handle_request }
      else con
]

-- The body so far, and whether a write into a temporary file has failed.
pub record Moved : Type 0 where
  pub moved_in : ℕ
  pub moved_content : Bytes
  pub moved_rest : List Bytes
  pub denied : Bool

abbrev pub smaller : ℕ → ℕ → ℕ
smaller m n = if ltb n m then n else m

-- The loop over the chunks; `writes` is how many of the writes into temporary files are done before
-- one fails. Temporary files are used for a body of more than 64 kB.
unfoldable pub move_body : ℕ → ℕ → ℕ → Bytes → List Bytes → Moved
move_body writes size done content [] = record {
  moved_in = done;
  moved_content = content;
  moved_rest = [];
  denied = false;
}
move_body writes size done content (c ∷ cs) =
    let n = smaller (length c) (size - done) in
    let moved = move_body (writes - 1) size (done + n) (content ++ take n c) cs in
    if done == size
    then record { moved_in = done; moved_content = content; moved_rest = c ∷ cs; denied = false }
    else if ltb (64 * 1024) size && writes == 0
    then record { moved_in = done; moved_content = content; moved_rest = c ∷ cs; denied = true }
    else record moved { moved_rest = drop n c ∷ moved.moved_rest }

unfoldable pub put_moved : Moved → Connection → Connection
put_moved moved con = record con {
  bytes_in = moved.moved_in;
  content = moved.moved_content;
  read_queue = moved.moved_rest;
}

unfoldable pub deny : Bool → Connection → Connection
deny denied con =
    if denied
    then record con { http_status = 413; keep_alive = false; state = handle_request }
    else con

-- The body is there.
unfoldable pub content_ready : Connection → Connection
content_ready con =
    if con.bytes_in == con.content_length then record con { state = handle_request } else con

unfoldable pub read_body : ℕ → Connection → Connection
read_body writes con =
    let moved = move_body writes con.content_length con.bytes_in con.content con.read_queue in
    content_ready (deny moved.denied (put_moved moved con))

unfoldable pub read_branch : ℕ → State → Connection → Connection
read_branch writes reading con = read_header con
read_branch writes read_post con = read_body writes con
read_branch writes s con = con

-- The peer has closed, and the state has not changed.
unfoldable pub closed_by_peer : Bool → State → Connection → Connection
closed_by_peer closed old con =
    if closed && state_index old == state_index con.state then record con { state = error } else con

-- Without a chunk there is no room.
unfoldable pub grow_last : Bytes → List Bytes → List Bytes
grow_last more [] = []
grow_last more (c ∷ []) = (c ++ more) ∷ []
grow_last more (c ∷ d ∷ cs) = c ∷ grow_last more (d ∷ cs)

-- New chunks are unread.
abbrev pub put_arrived : Bytes → List Bytes → Connection → Connection
put_arrived more chunks con = record con {
  read_queue = grow_last more con.read_queue ++ chunks;
  read_offsets = con.read_offsets ++ map (λ c. 0) chunks;
}

abbrev pub drop_finished : Connection → Connection → Connection
drop_finished before con = record con {
  read_queue = remove_finished con.read_queue;
  read_offsets =
      unfinished_offsets con.read_queue
        (advanced before.read_queue con.read_queue before.read_offsets);
}

unfoldable pub handle_read_state : Received → ℕ → Connection → Connection
handle_read_state failed writes con = record con { state = error }
handle_read_state (received closed more chunks) writes con =
    let con1 = put_arrived more chunks con in
    drop_finished con1 (closed_by_peer closed con.state (read_branch writes con.state con1))
