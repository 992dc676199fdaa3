-- ===== src/Session/Uploads.antt =====
-- WriteChunk and WriteData of elliptics/session.go. `reader k` is what the k-th Read of the input
-- gives, `allocates k` whether a key can be made after it.
pub mod Broken
pub mod Complete
pub mod Tiles
use elliptics_go.Base.{
  ℕ, ◌*◌, List, [], ◌∷◌, Option, none, some, ◌>>=◌, String, Bool, true, false, if◌then◌else◌, eqb,
  ltb, length,
}
use elliptics_go.Base.Int.{negsuc}
use elliptics_go.Base.Word.{add64, sub64}
use elliptics_go.Base.Text.{concat, show_ℕ}
use elliptics_go.Errors.{Error, dnet, text, Result, ok, err}
use elliptics_go.Session.Results.{lookup_item, lookup_error}
use elliptics_go.Session.World.{
  Value, chunk, on_chunk, on_chunk_finish, Upload, World, Call, session_write_prepare, send,
  make_chan, remember, new_context, issue, set_upload,
}
use elliptics_go.Session.Chunks.{took}
use elliptics_go.Session.Requests.{Opened, new_key, failed_chan}
use elliptics_go.Session.Writes.{refuse, write_key}

abbrev pub max_chunk_size : ℕ
max_chunk_size = 10 * 1024 * 1024

-- The error of a first Read that gives nothing.
unfoldable pub no_first_chunk : ℕ → ℕ → Error
no_first_chunk offset total_size = dnet (record {
  code = negsuc 21;
  flags = 0;
  message = concat (
      "Invalid zero-length write: current-offset: "
      ∷ show_ℕ offset
      ∷ "/"
      ∷ show_ℕ offset
      ∷ ", rest-size: "
      ∷ show_ℕ total_size
      ∷ "/"
      ∷ show_ℕ total_size
      ∷ []);
})

-- It is sent, and the request goes on.
unfoldable pub report_empty : ℕ → List ℕ → ℕ → ℕ → World → Option World
unfolding no_first_chunk
report_empty ch [] offset total_size w =
    send ch (lookup_item (lookup_error (no_first_chunk offset total_size))) w
report_empty ch (b ∷ bs) offset total_size w = some w

-- The closures and the buffer, stored under the three contexts.
unfoldable pub register_chunks : Opened → ℕ → List ℕ → World → World
register_chunks o c bytes w =
    remember c (chunk bytes)
      (remember o.f (on_chunk_finish o.ch o.r o.f c) (remember o.r (on_chunk o.ch) w))

-- The write that announces the whole size.
unfoldable pub prepare_call : Opened → List ℕ → Upload → Call
prepare_call o bytes u =
    session_write_prepare o.r o.f u.key (sub64 u.offset (length bytes))
      (add64 u.total_size (length bytes)) bytes

-- The bytes of the first Read are counted and, if a key can be made, written.
unfoldable pub announce : Opened → ℕ → List ℕ → Upload → World → Option (World × ℕ)
unfolding register_chunks prepare_call took refuse
announce o c bytes u w =
    let u' = took bytes u in
    if u.allocates u.reads
    then some
        (issue (prepare_call o bytes u') (register_chunks o c bytes (set_upload o.ch u' w)), o.ch)
    else refuse o.ch (text "could not create new key") w

-- After the first Read, which gave some bytes and no error.
unfoldable pub begin_chunks : Opened → ℕ → List ℕ → Upload → World → Option (World × ℕ)
unfolding report_empty announce
begin_chunks o c bytes u w = do
  told ← report_empty o.ch bytes u.offset u.total_size w
  announce o c bytes u told

-- The outcome of the first Read.
unfoldable pub first_read : Opened → ℕ → List ℕ × Option Error → Upload → World → Option (World × ℕ)
unfolding begin_chunks refuse
first_read o c (bytes, some e) u w = refuse o.ch e w
first_read o c (bytes, none) u w = begin_chunks o c bytes u w

-- WriteChunk
unfoldable pub write_chunk : Upload → World → Option (World × ℕ)
unfolding first_read
write_chunk u w =
    let (w1, ch) = make_chan w in
    let (w2, r) = new_context w1 in
    let (w3, f) = new_context w2 in
    let (w4, c) = new_context w3 in
    first_read (record { ch = ch; r = r; f = f }) c (u.reader u.reads) u w4

-- WriteData. `input` is what ioutil.ReadAll gives for the same input.
unfoldable pub write_data : Bool → Result (List ℕ) → Upload → World → Option (World × ℕ)
write_data allocated input u w =
    if ltb max_chunk_size u.total_size then write_chunk u w else (elim (new_key allocated u.key) [
      | err e ↦ failed_chan (lookup_item (lookup_error e)) w
      | ok ekey ↦ write_key ekey input u.offset w
    ])
