-- ===== src/Tests.antt =====
-- Runs of the models on concrete inputs, and the theorems at inputs that meet their hypotheses.
mod Arrays
mod Requests
mod Connections
mod Responses
mod Paths
mod Conditions
use lighttpd_autothumb.Base.{
  ◌+◌, ◌%◌, ℕ, ◌≡◌, refl, ◌≢◌, ◌⊎◌, true, false, Option, none, some, List, [], ◌∷◌, ◌++◌, arith,
  length, Bytes, codes, equal, All,
}
use lighttpd_autothumb.Chars.{hex2int, int2hex}
use lighttpd_autothumb.UrlDecode.{
  rel_uri, html, http_header, encoded_chars, encode, urldecode, c_string, encode_byte, replacement,
  escape, plain, escape_value, unescaped,
}
use lighttpd_autothumb.UrlDecode.Tables.{
  encoded_chars_rel_uri, encoded_chars_html, encoded_chars_http_header,
}
use lighttpd_autothumb.UrlDecode.RoundTrip.{urldecode-encode}
use lighttpd_autothumb.UrlDecode.Safe.{
  NotControl, NotMarkup, urldecode-NotControl, encode-NotMarkup,
}
use lighttpd_autothumb.PathSimplify.{
  path_simplify, simplify_from, skip_spaces, terminated, simplify_loop, close_token, shift_in,
  rewind, to_parent, scan_back,
}
use lighttpd_autothumb.PathSimplify.Spec.{
  render, resolve, split, onto_first, enter_last, parent, enter, is_skipped,
}
use lighttpd_autothumb.PathSimplify.Refines.{
  Holds as HoldsPath, segments, source_path, path_simplify-resolve,
}
use lighttpd_autothumb.PathSimplify.Clean.{nil-IsLast, IsClean, path_simplify-IsClean}
use lighttpd_autothumb.PathSimplify.Twice.{path_simplify_twice}
use lighttpd_autothumb.Number.{pos, negsuc, ltostr, to_digits, digits_loop}
use lighttpd_autothumb.Number.Decimal.{read_long, read_long-ltostr}
use lighttpd_autothumb.Buffer.{
  Buffer, prepare_append, started, write, append_string_len, append_string_encoded,
}
use lighttpd_autothumb.Buffer.Prepare.{Holds, Represents, unused}
use lighttpd_autothumb.Buffer.Append.{append_string_len-Holds, append_string_encoded-Holds}
use lighttpd_autothumb.Uri.{
  Connection, Physical, go_on, finished, lower, same_text, access_denied, access_uri_handler,
  alias_physical_handler,
}
use lighttpd_autothumb.Uri.Access.{IsDenied, access_uri_handler-IsDenied}
use lighttpd_autothumb.Uri.Alias.{text_of, alias-IsClean, alias_escapes}
use lighttpd_autothumb.KeyValue.{get_value, get_key}
use lighttpd_autothumb.KeyValue.Lookup.{Distinct}
use lighttpd_autothumb.ChunkQueue.{
  queue_length, queue_written, off_mod, mem_chunk, file_chunk, Chunk, Queue, queue_init, chunk_init,
  is_finished, retire, remove_loop, remove_finished_chunks, append_file, append_buffer,
  prepend_buffer, append_mem,
}
use lighttpd_autothumb.ChunkQueue.Finished.{Removes, remove_finished_chunks-Removes}
use lighttpd_autothumb.ChunkQueue.Valid.{reset as reset_call, run, IsValid, run-IsValid}
use lighttpd_autothumb.ChunkQueue.Content.{
  bytes, span, content, content_length, IsWithin, append-content, queue_length-content,
}
use lighttpd_autothumb.HttpChunk.{crlf, chunk_len, digit_count, chunk_digits, chunk_digit}
use lighttpd_autothumb.SplayTree.{
  Tree, leaf, node, node_size, round_right, round, left_path, right_path, linked_size, assemble,
  splay_loop, count, splay, insert, delete,
}
use lighttpd_autothumb.SplayTree.Order.{inorder, Inserted}
use lighttpd_autothumb.SplayTree.Search.{IsSearch, AtRoot, splay-AtRoot}
use lighttpd_autothumb.SplayTree.Size.{IsSized, insert-IsSized}
use lighttpd_autothumb.SplayTree.Update.{Deleted, insert-IsSearch, delete-IsSearch}

abbrev path : Bytes
path = codes " /a/./b//../c/.."

abbrev simple : Bytes
simple = codes "/a/"

simplify_runs : path_simplify path ≡ record { stored = codes "/a/" ++ 0 ∷ []; used = 4 }
unfolding path_simplify simplify_from skip_spaces c_string terminated simplify_loop close_token
    shift_in rewind to_parent scan_back
simplify_runs = refl

resolve_runs : render (resolve [] (segments (source_path path))) ≡ simple
unfolding render resolve skip_spaces c_string split onto_first enter_last equal parent enter
    is_skipped
resolve_runs = refl

path-ne_nil : source_path path ≢ []
unfolding c_string skip_spaces
path-ne_nil e = cc

path_simplify-resolve_example :
    HoldsPath (path_simplify path) (render (resolve [] (segments (source_path path))))
path_simplify-resolve_example = path_simplify-resolve path (omega arith) path-ne_nil

path-HoldsPath : HoldsPath (path_simplify path) simple
path-HoldsPath = rw simplify_runs (refl, refl)

path_simplify-IsClean_example : IsClean simple
path_simplify-IsClean_example =
    path_simplify-IsClean path simple (omega arith) path-ne_nil path-HoldsPath

path_simplify_twice_example : HoldsPath (path_simplify simple) simple
path_simplify_twice_example =
    path_simplify_twice path simple (omega arith) path-ne_nil path-HoldsPath

path_simplify_empty_runs : path_simplify (codes "  ") ≡ record { stored = b'/' ∷ 0 ∷ []; used = 3 }
unfolding path_simplify simplify_from skip_spaces c_string terminated simplify_loop close_token
    shift_in rewind to_parent scan_back
path_simplify_empty_runs = refl

abbrev spaced : Bytes
spaced = codes "a b/%+"

urldecode_runs :
    (urldecode false (codes "a%20b%2f%00+%4") ≡ codes "a b/_+%4")
    × (urldecode true (codes "%41+%zz") ≡ codes "A %zz")
unfolding urldecode escape plain escape_value unescaped hex2int
urldecode_runs = (refl, refl)

encode_runs : encode rel_uri encoded_chars_rel_uri spaced ≡ codes "a%20b/%25%2b"
unfolding encode encode_byte replacement encoded_chars_rel_uri int2hex
encode_runs = refl

uri_chars : encoded_chars rel_uri ≡ some encoded_chars_rel_uri
unfolding encoded_chars
uri_chars = refl

html_chars : encoded_chars html ≡ some encoded_chars_html
unfolding encoded_chars
html_chars = refl

header_chars : encoded_chars http_header ≡ some encoded_chars_http_header
unfolding encoded_chars
header_chars = refl

urldecode-encode_example : urldecode true (encode rel_uri encoded_chars_rel_uri spaced) ≡ spaced
urldecode-encode_example =
    urldecode-encode true rel_uri encoded_chars_rel_uri spaced tt uri_chars (omega arith)

urldecode-NotControl_example : All NotControl (urldecode false (codes "a%00%0A%7f"))
urldecode-NotControl_example = urldecode-NotControl false (codes "a%00%0A%7f") (omega arith)

encode-NotMarkup_example : All NotMarkup (encode html encoded_chars_html (codes "<b>&"))
encode-NotMarkup_example =
    encode-NotMarkup html encoded_chars_html (codes "<b>&") tt html_chars (omega arith)

read_long-ltostr_example : read_long (ltostr (negsuc 2047)) ≡ negsuc 2047
read_long-ltostr_example = read_long-ltostr (negsuc 2047) (omega arith)

ltostr_runs : (ltostr (negsuc 2047) ≡ codes "-2048") × (ltostr (pos 0) ≡ codes "0")
unfolding ltostr to_digits digits_loop
ltostr_runs = (refl, refl)

-- New memory is full of this byte.
abbrev junk : ℕ → ℕ
junk i = 0xCC

abbrev empty : Buffer
empty = record { ptr = []; used = 0; size = 0 }

empty-Represents : Represents empty []
empty-Represents = unused refl refl refl

-- A region of eight bytes with a text of two.
abbrev small : Buffer
small = record { ptr = codes "ab" ++ 0 ∷ 1 ∷ 2 ∷ 3 ∷ 4 ∷ 5 ∷ []; used = 3; size = 8 }

small-Holds : Holds small (codes "ab")
small-Holds = record { rest = 1 ∷ 2 ∷ 3 ∷ 4 ∷ 5 ∷ []; ptr_is = refl; used_is = refl; region = refl }

append_runs :
    append_string_len junk small (codes "cde")
    ≡ some (record { ptr = codes "abcde" ++ 0 ∷ 4 ∷ 5 ∷ []; used = 6; size = 8 })
unfolding append_string_len prepare_append started write
append_runs = refl

append_string_len-Holds_example :
    (b' : Buffer) × (append_string_len junk empty (codes "cde") ≡ some b') × Holds b' (codes "cde")
append_string_len-Holds_example =
    append_string_len-Holds junk empty [] (codes "cde") empty-Represents (omega arith) (λ e. cc)

encoded_short : length (encode rel_uri encoded_chars_rel_uri spaced) ≡ 12
encoded_short = rw encode_runs

append_string_encoded-Holds_example :
    (b' : Buffer) × (append_string_encoded junk small spaced rel_uri ≡ some b')
    × Holds b' (codes "ab" ++ encode rel_uri encoded_chars_rel_uri spaced)
append_string_encoded-Holds_example =
    append_string_encoded-Holds junk small (codes "ab") spaced rel_uri encoded_chars_rel_uri
      small-Holds uri_chars (omega (arith, encoded_short))

abbrev asked : Connection
asked = record { http_status = 0; direct = false }

abbrev hidden : List (Option Bytes)
hidden = none ∷ some (codes "~") ∷ some (codes ".INC") ∷ []

access_runs :
    (access_uri_handler true (some (codes "/a.inc")) hidden asked
      ≡ (finished, record { http_status = 403; direct = true }))
    × (access_uri_handler false (some (codes "/a.inc")) hidden asked ≡ (go_on, asked))
unfolding access_uri_handler access_denied same_text lower equal
access_runs = (refl, refl)

access_uri_handler-IsDenied_example :
    ((access_uri_handler true (some (codes "/a.inc")) hidden asked
        ≡ (finished, record { http_status = 403; direct = true }))
      × IsDenied true (codes "/a.inc") hidden)
    ⊎ ((access_uri_handler true (some (codes "/a.inc")) hidden asked ≡ (go_on, asked))
        × ¬ IsDenied true (codes "/a.inc") hidden)
access_uri_handler-IsDenied_example = access_uri_handler-IsDenied true (codes "/a.inc") hidden asked

image-IsClean : IsClean (codes "/img/")
unfolding split onto_first
image-IsClean =
    (nil-IsLast, (((λ e. ground arith), (λ e. ground arith), omega arith), (nil-IsLast, tt)))

root-IsClean : IsClean (codes "/srv")
unfolding split onto_first
root-IsClean = (nil-IsLast, (((λ e. ground arith), (λ e. ground arith), omega arith), tt))

abbrev img : Bytes
img = codes "/img"

abbrev srv : Bytes
srv = codes "/srv"

alias-IsClean_example : IsClean (
    text_of
      (alias_physical_handler false
        ((some (img ++ b'/' ∷ []), srv ++ b'/' ∷ []) ∷ [])
        (record { basedir = codes "/www/"; path = some (codes "/www/img/") })).path)
alias-IsClean_example =
    alias-IsClean img srv [] []
      (record { basedir = codes "/www/"; path = some (codes "/www/img/") }) refl image-IsClean
      root-IsClean

nil-IsClean : IsClean []
unfolding split
nil-IsClean = (nil-IsLast, tt)

abbrev escaping : Physical
escaping = record { basedir = codes "/www/"; path = some (codes "/www/img../") }

alias_escapes_example :
    IsClean (codes "/img../")
    × ¬ IsClean (
        text_of
          (alias_physical_handler false
            ((some (codes "/img"), srv ++ b'/' ∷ []) ∷ [])
            escaping).path)
alias_escapes_example =
    alias_escapes [] (codes "img") srv [] [] escaping (omega arith) (λ e. cc) nil-IsClean
      nil-IsClean refl

abbrev codes_table : List (ℕ × Bytes)
codes_table = (1, codes "one") ∷ (2, codes "two") ∷ []

codes_table-Distinct : Distinct codes_table
unfolding get_value get_key equal
codes_table-Distinct = ground arith

-- One text in the queue, sent in full, and a file that waits.
abbrev sent : Chunk
sent = record chunk_init { kind = mem_chunk; mem = some (codes "ab"); offset = 2; fd = some 7 }

abbrev waiting : Chunk
waiting = record chunk_init {
  kind = file_chunk;
  name = some (codes "/f");
  file_length = 9;
  is_temp = true;
}

abbrev two : Queue
two = record queue_init { chunks = sent ∷ waiting ∷ []; bytes_in = 11 }

remove_runs : (remove_finished_chunks two).chunks ≡ waiting ∷ []
unfolding remove_finished_chunks remove_loop is_finished retire queue_init chunk_init
remove_runs = refl

remove_finished_chunks-Removes_example : Removes two.chunks two (remove_finished_chunks two)
remove_finished_chunks-Removes_example = remove_finished_chunks-Removes two

abbrev open_file : Bytes → Option (ℕ × Bytes)
open_file template = some (5, template ++ codes "1")

two-IsValid : IsValid two
unfolding queue_init
two-IsValid = record { counted = refl; few = omega arith; closed = tt }

run-IsValid_example : IsValid (run reset_call two)
run-IsValid_example = run-IsValid reset_call two two-IsValid

two-IsWithin : All IsWithin two.chunks
unfolding queue_init chunk_init
two-IsWithin = (omega arith, (omega arith, tt))

append-content_example :
    (content (append_buffer two (some (codes "x"))) ≡ content two ++ bytes (codes "x") ∷ [])
    × (content (prepend_buffer two (some (codes "x"))) ≡ bytes (codes "x") ∷ content two)
    × (content (append_mem two (codes "x" ++ 0 ∷ []) 2) ≡ content two ++ bytes (codes "x") ∷ [])
    × (content (append_file two (some (codes "/g")) 1 3)
        ≡ content two ++ span (some (codes "/g")) 1 3 ∷ [])
    × (append_buffer two none ≡ two)
    × (prepend_buffer two none ≡ two)
    × (append_mem two (codes "x") 0 ≡ two)
    × (append_file two (some (codes "/g")) 1 0 ≡ two)
append-content_example = append-content two (codes "x") (some (codes "/g")) 1 3 (omega arith)

queue_length-content_example :
    queue_length two ≡ (content_length (content two) + queue_written two) % off_mod
queue_length-content_example = queue_length-content two two-IsWithin

chunk_len_runs : (chunk_len 0 ≡ codes "0" ++ crlf) × (chunk_len 0x1f4 ≡ codes "1f4" ++ crlf)
unfolding chunk_len chunk_digits digit_count chunk_digit
chunk_len_runs = (refl, refl)

abbrev three : Tree Bytes
three = node (node leaf 1 1 (codes "a") leaf) 3 3 (codes "b") (node leaf 5 1 (codes "c") leaf)

three-IsSearch : IsSearch three
three-IsSearch = ((omega arith, tt), (omega arith, tt), (tt, tt, tt, tt), (tt, tt, tt, tt))

splay_runs :
    splay three 5
    ≡ some (node (node (node leaf 1 1 (codes "a") leaf) 3 2 (codes "b") leaf) 5 3 (codes "c") leaf)
unfolding splay splay_loop round round_right assemble left_path right_path linked_size count
    node_size
splay_runs = refl

splay-AtRoot_example :
    (u : Tree Bytes) × (splay three 5 ≡ some u)
    × (inorder u ≡ inorder three)
    × IsSearch u
    × AtRoot 5 u
splay-AtRoot_example = splay-AtRoot three 5 three-IsSearch

insert-IsSearch_example :
    (u : Tree Bytes) × (insert three 4 (codes "d") ≡ some u)
    × IsSearch u
    × Inserted (inorder three) 4 (codes "d") u
insert-IsSearch_example = insert-IsSearch three 4 (codes "d") three-IsSearch

delete-IsSearch_example :
    (u : Tree Bytes) × (delete three 3 ≡ some u)
    × IsSearch u
    × Deleted (inorder three) 3 (inorder u)
delete-IsSearch_example = delete-IsSearch three 3 three-IsSearch

three-IsSized : IsSized three
unfolding count
three-IsSized = (refl, (refl, tt, tt), (refl, tt, tt))

insert-IsSized_example :
    ((u : Tree Bytes) × (splay three 4 ≡ some u) × IsSized u)
    × ((u : Tree Bytes) × (insert three 4 (codes "d") ≡ some u) × IsSized u)
insert-IsSized_example = insert-IsSized three 4 (codes "d") three-IsSized
