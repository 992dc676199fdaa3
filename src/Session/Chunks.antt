-- ===== src/Session/Chunks.antt =====
-- The closures of WriteChunk in elliptics/session.go: onChunkResult and onChunkFinish. Their shared
-- variables are the request's `Upload`.
use elliptics_go.Base.{ℕ, ◌+◌, List, [], ◌∷◌, Option, none, some, ◌>>=◌, if◌then◌else◌, eqb, length}
use elliptics_go.Base.Word.{add64, sub64}
use elliptics_go.Base.Dict.{lookup}
use elliptics_go.Base.Eq.{nat_eq}
use elliptics_go.Errors.{Error, text}
use elliptics_go.Session.Results.{LookupResult, lookup_item, lookup_error}
use elliptics_go.Session.World.{
  Upload, World, Call, session_write_plain, session_write_commit, send, close, forget, issue,
  set_upload,
}

-- onChunkResult: only the results of the last chunk are passed on.
unfoldable pub chunk_result : ℕ → LookupResult → World → Option World
chunk_result ch r w = do
  u ← lookup ch w.uploads
  if eqb u.total_size 0 then send ch (lookup_item r) w else some w

-- The channel and the three contexts at the end of a request.
unfoldable pub chunk_end : ℕ → ℕ → ℕ → ℕ → World → Option World
chunk_end ch r f c w = do ended ← close ch w; some (forget c (forget f (forget r ended)))

unfoldable pub chunk_fail : ℕ → ℕ → ℕ → ℕ → Error → World → Option World
unfolding chunk_end
chunk_fail ch r f c e w = do
  told ← send ch (lookup_item (lookup_error e)) w
  chunk_end ch r f c told

-- The variables after a Read of some bytes.
unfoldable pub took : List ℕ → Upload → Upload
took bytes u = record u {
  reads = u.reads + 1;
  total_size = sub64 u.total_size (length bytes);
  offset = add64 u.offset (length bytes);
}

-- The write of the bytes that were read, with the variables after the Read.
unfoldable pub chunk_call : ℕ → ℕ → List ℕ → Upload → Call
chunk_call r f bytes u =
    let begin = sub64 u.offset (length bytes) in
    if eqb u.total_size 0
    then session_write_commit r f u.key begin u.offset bytes
    else session_write_plain r f u.key begin bytes

unfoldable pub write_taken : ℕ → ℕ → ℕ → ℕ → List ℕ → Upload → World → Option World
unfolding took chunk_call chunk_fail
write_taken ch r f c bytes u w =
    let u' = took bytes u in
    let w' = set_upload ch u' w in
    if u.allocates u.reads
    then some (issue (chunk_call r f bytes u') w')
    else chunk_fail ch r f c (text "could not create new key") w'

-- What a Read gave: only a Read of nothing heeds its error.
unfoldable pub take_read : ℕ → ℕ → ℕ → ℕ → List ℕ × Option Error → Upload → World → Option World
unfolding write_taken
take_read ch r f c ([], some e) u w = chunk_fail ch r f c e w
take_read ch r f c ([], none) u w = write_taken ch r f c [] u w
take_read ch r f c (b ∷ bs, e) u w = write_taken ch r f c (b ∷ bs) u w

-- onChunkFinish
unfoldable pub chunk_finish : ℕ → ℕ → ℕ → ℕ → Option Error → World → Option World
unfolding take_read
chunk_finish ch r f c (some e) w = chunk_fail ch r f c e w
chunk_finish ch r f c none w = do
  u ← lookup ch w.uploads
  if eqb u.total_size 0 then chunk_end ch r f c w else take_read ch r f c (u.reader u.reads) u w
