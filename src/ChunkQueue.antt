-- ===== src/ChunkQueue.antt =====
-- The queue of chunks of src/chunk.c and src/chunk.h.
-- The list that `first` begins is `chunks`; `last` is its last cell, and NULL where it is empty. A
-- buffer with nothing in use is `none`. An `off_t` is its pattern of 64 bits. What the calls ask of
-- the operating system is noted in `effects`.
pub mod Finished
pub mod Content
pub mod Valid
pub mod Temporary
use lighttpd_autothumb.Base.{
  ℕ, ◌+◌, ◌-◌, ◌%◌, ◌^◌, Bool, true, false, ◌||◌, Option, none, some, List, [], ◌∷◌, ◌++◌, map, ltb,
  ◌==◌, if◌then◌else◌, length, take, Bytes,
}

abbrev pub off_mod : ℕ
off_mod = 2 ^ 64

pub data ChunkType : Type 0 where
  unused_chunk mem_chunk file_chunk : ChunkType

pub data Effect : Type 0 where
  unlink : Bytes → Effect
  close : ℕ → Effect
  munmap : Effect

pub record Chunk : Type 0 where
  pub kind : ChunkType
  pub mem : Option Bytes
  pub name : Option Bytes
  pub start : ℕ
  pub file_length : ℕ
  pub fd : Option ℕ
  pub is_mapped : Bool
  pub is_temp : Bool
  pub offset : ℕ

pub record Queue : Type 0 where
  pub chunks : List Chunk
  pub unused : List Chunk
  pub unused_chunks : ℕ
  pub bytes_in : ℕ
  pub bytes_out : ℕ
  pub effects : List Effect

unfoldable pub queue_init : Queue
queue_init = record {
  chunks = [];
  unused = [];
  unused_chunks = 0;
  bytes_in = 0;
  bytes_out = 0;
  effects = [];
}

unfoldable pub chunk_init : Chunk
chunk_init = record {
  kind = unused_chunk;
  mem = none;
  name = none;
  start = 0;
  file_length = 0;
  fd = none;
  is_mapped = false;
  is_temp = false;
  offset = 0;
}

-- `buffer->used`.
abbrev pub used : Option Bytes → ℕ
used none = 0
used (some text) = length text + 1

-- What `chunk_reset` asks of the system, in this order.
unfoldable pub unlink_effect : Bool → Option Bytes → List Effect
unlink_effect true (some name) = unlink name ∷ []
unlink_effect true none = []
unlink_effect false name = []

unfoldable pub close_effect : Option ℕ → List Effect
close_effect (some fd) = close fd ∷ []
close_effect none = []

unfoldable pub reset_effects : Chunk → List Effect
reset_effects c =
    unlink_effect c.is_temp c.name
    ++ (close_effect c.fd ++ (if c.is_mapped then munmap ∷ [] else []))

-- `chunk_reset`; it leaves the type, the place in the file, the offset and `is_temp`.
unfoldable pub chunk_reset : Chunk → Chunk
chunk_reset c = record c { mem = none; name = none; fd = none; is_mapped = false }

-- `chunkqueue_get_unused_chunk`.
unfoldable pub get_unused_chunk : Queue → Chunk × Queue
get_unused_chunk cq = elim cq.unused [
  | [] ↦ (chunk_init, cq)
  | c ∷ rest ↦ (c, record cq { unused = rest; unused_chunks = cq.unused_chunks - 1 })
]

unfoldable pub append_chunk : Queue → Chunk → Queue
append_chunk cq c = record cq { chunks = cq.chunks ++ c ∷ [] }

unfoldable pub prepend_chunk : Queue → Chunk → Queue
prepend_chunk cq c = record cq { chunks = c ∷ cq.chunks }

unfoldable pub append_file : Queue → Option Bytes → ℕ → ℕ → Queue
append_file cq fn offset len =
    if len == 0
    then cq
    else (let (c, cq') = get_unused_chunk cq in
        append_chunk cq' (record c {
          kind = file_chunk;
          name = fn;
          start = offset;
          file_length = len;
          offset = 0;
        }))

unfoldable pub append_buffer : Queue → Option Bytes → Queue
append_buffer cq none = cq
append_buffer cq (some text) =
    let (c, cq') = get_unused_chunk cq in
    append_chunk cq' (record c { kind = mem_chunk; offset = 0; mem = some text })

-- The chunk takes the buffer itself; what it held is freed.
unfoldable pub append_buffer_weak : Queue → Option Bytes → Queue
append_buffer_weak cq mem' =
    let (c, cq') = get_unused_chunk cq in
    append_chunk cq' (record c { kind = mem_chunk; offset = 0; mem = mem' })

unfoldable pub prepend_buffer : Queue → Option Bytes → Queue
prepend_buffer cq none = cq
prepend_buffer cq (some text) =
    let (c, cq') = get_unused_chunk cq in
    prepend_chunk cq' (record c { kind = mem_chunk; offset = 0; mem = some text })

-- `len` counts a closing zero: of the bytes at `mem` all but the last are copied.
unfoldable pub append_mem : Queue → Bytes → ℕ → Queue
append_mem cq mem' len =
    if len == 0
    then cq
    else (let (c, cq') = get_unused_chunk cq in
        append_chunk cq'
          (record c { kind = mem_chunk; offset = 0; mem = some (take (len - 1) mem') }))

-- The caller gets the buffer of the new chunk to write to; it comes reset.
unfoldable pub get_append_buffer : Queue → Queue
get_append_buffer cq =
    let (c, cq') = get_unused_chunk cq in
    append_chunk cq' (record c { kind = mem_chunk; offset = 0; mem = none })

unfoldable pub get_prepend_buffer : Queue → Queue
get_prepend_buffer cq =
    let (c, cq') = get_unused_chunk cq in
    prepend_chunk cq' (record c { kind = mem_chunk; offset = 0; mem = none })

-- The first template that `mkstemp` accepts; else the last one, without a descriptor.
unfoldable pub try_templates : (Bytes → Option (ℕ × Bytes)) → Bytes → List Bytes → Bytes × Option ℕ
try_templates mkstemp last [] = (last, none)
try_templates mkstemp last (dir ∷ dirs) =
    let rest = try_templates mkstemp dir dirs in
    elim (mkstemp dir) [ some (fd, name) ↦ (name, some fd) | none ↦ rest ]

-- `chunkqueue_get_append_tempfile` over the templates in the order that they are tried: those of the
-- configured directories, or the one under /var/tmp. `mkstemp` gives a descriptor and the name.
unfoldable pub get_append_tempfile : (Bytes → Option (ℕ × Bytes)) → Queue → List Bytes → Queue
get_append_tempfile mkstemp cq templates =
    let (c, cq') = get_unused_chunk cq in
    let (file, opened) = try_templates mkstemp [] templates in
    append_chunk cq' (record c {
      kind = file_chunk;
      offset = 0;
      fd = opened;
      is_temp = elim opened [ some _ ↦ true | none ↦ c.is_temp ];
      name = some file;
      file_length = 0;
    })

abbrev pub chunk_length : Chunk → ℕ
chunk_length c = elim c.kind [
  | mem_chunk ↦ used c.mem - 1
  | file_chunk ↦ c.file_length
  | unused_chunk ↦ 0
]

abbrev pub total_length : List Chunk → ℕ
total_length [] = 0
total_length (c ∷ cs) = chunk_length c + total_length cs

unfoldable pub queue_length : Queue → ℕ
queue_length cq = total_length cq.chunks % off_mod

abbrev pub total_written : List Chunk → ℕ
total_written [] = 0
total_written (c ∷ cs) = elim c.kind [ unused_chunk ↦ 0 | _ ↦ c.offset ] + total_written cs

unfoldable pub queue_written : Queue → ℕ
queue_written cq = total_written cq.chunks % off_mod

unfoldable pub queue_is_empty : Queue → Bool
queue_is_empty cq = elim cq.chunks [ [] ↦ true | _ ∷ _ ↦ false ]

unfoldable pub is_finished : Chunk → Bool
is_finished c = elim c.kind [
  | mem_chunk ↦ used c.mem == 0 || c.offset == used c.mem - 1
  | file_chunk ↦ c.offset == c.file_length
  | unused_chunk ↦ false
]

-- The part of the loop behind `chunk_reset`: at most five chunks are kept for reuse.
unfoldable pub retire : Chunk → Queue → Queue
retire c cq =
    let cq' = record cq { effects = cq.effects ++ reset_effects c } in
    if ltb 4 cq.unused_chunks
    then cq'
    else record cq' { unused = chunk_reset c ∷ cq.unused; unused_chunks = cq.unused_chunks + 1 }

unfoldable pub remove_loop : List Chunk → Queue → Queue
remove_loop [] cq = record cq { chunks = [] }
remove_loop (c ∷ cs) cq =
    let rest = remove_loop cs (retire c cq) in
    if is_finished c then rest else record cq { chunks = c ∷ cs }

unfoldable pub remove_finished_chunks : Queue → Queue
remove_finished_chunks cq = remove_loop cq.chunks cq

-- The loop of `chunkqueue_reset`; the offset of an empty buffer wraps.
unfoldable pub mark_written : Chunk → Chunk
mark_written c = elim c.kind [
  | mem_chunk ↦ record c { offset = (used c.mem + off_mod - 1) % off_mod }
  | file_chunk ↦ record c { offset = c.file_length }
  | unused_chunk ↦ c
]

unfoldable pub queue_reset : Queue → Queue
queue_reset cq =
    let cq' = remove_finished_chunks (record cq { chunks = map mark_written cq.chunks }) in
    record cq' { bytes_in = 0; bytes_out = 0 }
