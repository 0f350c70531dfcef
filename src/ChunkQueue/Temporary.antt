-- ===== src/ChunkQueue/Temporary.antt =====
-- A chunk that once named a temporary file stays marked as temporary when it is used again.
use lighttpd_autothumb.Base.{ℕ, ◌≡◌, ◌≢◌, Option, some, [], ◌∷◌, arith, Bytes}
use lighttpd_autothumb.ChunkQueue.{
  unlink, close, queue_init, chunk_init, unlink_effect, close_effect, reset_effects, chunk_reset,
  get_unused_chunk, append_chunk, append_file, try_templates, get_append_tempfile, is_finished,
  retire, remove_loop, remove_finished_chunks, mark_written, queue_reset,
}

-- After a temporary file has been sent, the next file that is queued is unlinked as soon as it is
-- sent, whatever its name is.
pub append_file-unlink :
    (mkstemp : Bytes → Option (ℕ × Bytes)) (template name fn : Bytes) (fd offset len : ℕ)
    → mkstemp template ≡ some (fd, name)
    → len ≢ 0
    → (queue_reset (
        append_file
          (queue_reset (get_append_tempfile mkstemp queue_init (template ∷ [])))
          (some fn)
          offset
          len)).effects
      ≡ unlink name ∷ close fd ∷ unlink fn ∷ []
unfolding queue_reset append_file get_append_tempfile try_templates queue_init get_unused_chunk
    append_chunk chunk_init remove_finished_chunks remove_loop mark_written is_finished retire
    chunk_reset reset_effects unlink_effect close_effect
append_file-unlink mkstemp template name fn fd offset len e ne = ground arith
