-- ===== src/Session/Uploads/Complete.antt =====
-- A chunked write of elliptics/session.go from WriteChunk to the end of its last chunk.
use elliptics_go.Base.{
  ℕ, ◌+◌, ◌<◌, ◌≡◌, ◌≢◌, refl, List, [], ◌∷◌, ◌++◌, append_assoc, Option, some, String, Bool, true,
  false, arith, ◌∙◌, length, All, none, ap,
}
use elliptics_go.Base.Dict.{lookup, lookup-insert_self}
use elliptics_go.Base.Eq.{nat_eq, eq_refl, eq_of_ne}
use elliptics_go.Base.Word.{add64, u64_mod, add64_exact, sub64_exact}
use elliptics_go.Errors.{Error}
use elliptics_go.Pool.{store, next_context}
use elliptics_go.Pool.Laws.{get-store}
use elliptics_go.Session.World.{
  Upload, chunk, on_chunk, on_chunk_finish, World, Call, session_write_prepare, remember,
  new_context, make_chan, issue, set_upload,
}
use elliptics_go.Session.Chunks.{took}
use elliptics_go.Session.Requests.{Opened}
use elliptics_go.Session.Requests.Written.{Written}
use elliptics_go.Session.Uploads.{
  register_chunks, prepare_call, announce, begin_chunks, report_empty, first_read, write_chunk,
}
use elliptics_go.Session.Uploads.Tiles.{
  at, Gives, IsChunk, size_of, rest_calls, acknowledge, took_next, plus_minus, none_short,
  Uploading, acknowledge_each,
}

-- The variables of a chunked write at its start.
abbrev pub fresh : String → (ℕ → List ℕ × Option Error) → (ℕ → Bool) → ℕ → ℕ → Upload
fresh key reader allocates offset total_size = record {
  key = key;
  reader = reader;
  allocates = allocates;
  reads = 0;
  total_size = total_size;
  offset = offset;
}

report_some :
    (ch : ℕ) (bytes : List ℕ) (o t : ℕ) (w : World)
    → IsChunk bytes
    → report_empty ch bytes o t w ≡ some w
unfolding report_empty
report_some ch [] o t w full = elim (none_short [] refl full) [ ]
report_some ch (b ∷ bs) o t w full = refl

prepared :
    (q : Opened) (u : Upload) (c : List ℕ) (cs : List (List ℕ)) (o : ℕ)
    → o + size_of (c ∷ cs) < u64_mod
    → prepare_call q c (at u 1 (o + length c) (size_of cs))
      ≡ session_write_prepare q.r q.f u.key o (size_of (c ∷ cs)) c
unfolding prepare_call
prepared q u c cs o fits =
    let all : size_of cs + length c ≡ size_of (c ∷ cs) = omega arith in
    simp (
      sub64_exact (o + length c) (length c) (omega arith) (omega arith),
      plus_minus o (length c),
      add64_exact (size_of cs) (length c) (omega arith),
      all,
    )

announce-some :
    (q : Opened) (b : ℕ) (c : List ℕ) (u u' : Upload) (call : Call) (w : World)
    → u.allocates u.reads ≡ true
    → took c u ≡ u'
    → prepare_call q c u' ≡ call
    → announce q b c u w ≡ some (issue call (register_chunks q b c (set_upload q.ch u' w)), q.ch)
unfolding announce
announce-some q b c u u' call w made next called =
    let sent : Upload → Call → Option (World × ℕ) =
      λ v x. some (issue x (register_chunks q b c (set_upload q.ch v w)), q.ch) in
    rw made (ap (λ v. sent v (prepare_call q c v)) next ∙ ap (sent u') called)

-- The contexts of a chunked write are the next three numbers.
pub opened :
    (u : Upload) (w : World)
    → w.pool.counter + 3 < u64_mod
    → let n = w.pool.counter in
      write_chunk u w
      ≡ first_read
          (record { ch = w.next_chan; r = n + 1; f = n + 2 })
          (n + 3)
          (u.reader u.reads)
          u
          (record (make_chan w).0 { pool = record w.pool { counter = n + 3 } })
unfolding write_chunk make_chan new_context next_context
opened u w lt =
    let n = w.pool.counter in
    let one : add64 n 1 ≡ n + 1 = add64_exact n 1 (omega arith) in
    let two : add64 (n + 1) 1 ≡ n + 2 = add64_exact (n + 1) 1 (omega arith) ∙ omega arith in
    let three : add64 (n + 2) 1 ≡ n + 3 = add64_exact (n + 2) 1 (omega arith) ∙ omega arith in
    rw (one, two, three) refl

first_read_some :
    (q : Opened) (b : ℕ) (got : List ℕ × Option Error) (bytes : List ℕ) (u : Upload) (w : World)
    → got ≡ (bytes, none)
    → first_read q b got u w ≡ begin_chunks q b bytes u w
unfolding first_read
first_read_some q b got bytes u w given = ap (λ g. first_read q b g u w) given

-- A chunked write after its first Read, in a world with its channel.
announced :
    (q : Opened) (b : ℕ) (u : Upload) (c : List ℕ) (cs : List (List ℕ)) (o : ℕ) (w : World)
    → q.f ≡ q.r + 1
    → b ≡ q.r + 2
    → lookup q.ch w.chans ≡ some (record { sent = []; closed = false })
    → IsChunk c
    → u.allocates 0 ≡ true
    → o + size_of (c ∷ cs) < u64_mod
    → (w1 : World) × (begin_chunks q b c (at u 0 o (size_of (c ∷ cs))) w ≡ some (w1, q.ch))
      × Uploading q.ch q.r q.f b
          (at u 1 (o + length c) (size_of cs))
          (w.calls ++ session_write_prepare q.r q.f u.key o (size_of (c ∷ cs)) c ∷ [])
          w1
unfolding begin_chunks register_chunks remember set_upload issue
announced q b u c cs o w next_f next_b there full made fits =
    let u0 = at u 0 o (size_of (c ∷ cs)) in
    let u1 = at u 1 (o + length c) (size_of cs) in
    let apart : b ≢ q.f = λ same. omega arith in
    let p = store q.r (on_chunk q.ch) w.pool in
    let v = on_chunk_finish q.ch q.r q.f b in
    (
      issue (session_write_prepare q.r q.f u.key o (size_of (c ∷ cs)) c)
          (register_chunks q b c (set_upload q.ch u1 w)),
      rw (report_some q.ch c o (size_of (c ∷ cs)) w full) (
          announce-some q b c u0 u1 (session_write_prepare q.r q.f u.key o (size_of (c ∷ cs)) c) w
            made (took_next u 0 o c cs fits) (prepared q u c cs o fits)),
      record {
        finisher =
            get-store b q.f (chunk c) (store q.f v p)
            ∙ simp (eq_of_ne b q.f apart, get-store q.f q.f v p, eq_refl q.f);
        channel = there;
        variables = lookup-insert_self q.ch u1 w.uploads;
        called = refl;
      },
    )

-- WriteChunk, up to its return.
pub write_chunk-Uploading :
    (key : String) (reader : ℕ → List ℕ × Option Error) (allocates : ℕ → Bool) (offset : ℕ)
    (c : List ℕ) (cs : List (List ℕ)) (w : World)
    → ((k : ℕ) → allocates k ≡ true)
    → reader 0 ≡ (c, none)
    → IsChunk c
    → offset + size_of (c ∷ cs) < u64_mod
    → w.pool.counter + 3 < u64_mod
    → let r = w.pool.counter + 1 in
      let f = w.pool.counter + 2 in
      let u = fresh key reader allocates offset (size_of (c ∷ cs)) in
      (w1 : World) × (write_chunk u w ≡ some (w1, w.next_chan))
      × Uploading w.next_chan r f
          (w.pool.counter + 3)
          (at u 1 (offset + length c) (size_of cs))
          (w.calls ++ session_write_prepare r f key offset (size_of (c ∷ cs)) c ∷ [])
          w1
unfolding make_chan
write_chunk-Uploading key reader allocates offset c cs w made first full fits lt =
    let n = w.pool.counter in
    let u = fresh key reader allocates offset (size_of (c ∷ cs)) in
    let w0 : World = record (make_chan w).0 { pool = record w.pool { counter = n + 3 } } in
    let q : Opened = record { ch = w.next_chan; r = n + 1; f = n + 2 } in
    let (w1, begun, up) =
      announced q (n + 3) u c cs offset w0 (omega arith) (omega arith)
        (lookup-insert_self w.next_chan (record { sent = []; closed = false }) w.chans) full
        (made 0) fits in
    (w1, opened u w lt ∙ first_read_some q (n + 3) (reader 0) c u w0 first ∙ begun, up)

-- WriteChunk of chunks that are together as long as its caller says, from an input that gives them
-- one by one, while fewer than 2^64 contexts are handed out and the offsets stay below 2^64: it does
-- not panic, and neither do the acknowledgements, one for each chunk. The first chunk is announced
-- with the whole size; each further chunk is written at the offset where the one before it ended,
-- the last of them with a commit, and nothing else is called. At the end the channel is closed with
-- nothing sent by these callbacks, and the three contexts are out of the pool.
pub write_chunk_complete :
    (key : String) (reader : ℕ → List ℕ × Option Error) (allocates : ℕ → Bool) (offset : ℕ)
    (c : List ℕ) (cs : List (List ℕ)) (w : World)
    → ((k : ℕ) → allocates k ≡ true)
    → reader 0 ≡ (c, none)
    → Gives reader 1 cs
    → All IsChunk (c ∷ cs)
    → offset + size_of (c ∷ cs) < u64_mod
    → w.pool.counter + 3 < u64_mod
    → let r = w.pool.counter + 1 in
      let f = w.pool.counter + 2 in
      let total_size = size_of (c ∷ cs) in
      (w1 : World) × (w2 : World) × (write_chunk (fresh key reader allocates offset total_size) w
        ≡ some (w1, w.next_chan))
      × (acknowledge (length (c ∷ cs)) f w1 ≡ some w2)
      × (w2.calls
          ≡ w.calls
            ++ session_write_prepare r f key offset total_size c
              ∷ rest_calls r f key (offset + length c) cs)
      × Written w.next_chan r f (w.pool.counter + 3) [] w2
write_chunk_complete key reader allocates offset c cs w made first given (full, more) fits lt =
    let n = w.pool.counter in
    let u = fresh key reader allocates offset (size_of (c ∷ cs)) in
    let prepare = session_write_prepare (n + 1) (n + 2) key offset (size_of (c ∷ cs)) c in
    let (w1, begun, up) =
      write_chunk-Uploading key reader allocates offset c cs w made first full fits lt in
    let (w2, ended, written, called) =
      acknowledge_each w.next_chan (n + 1) (n + 2) (n + 3) u made 1 (offset + length c) cs
        (w.calls ++ prepare ∷ []) w1 up more given (omega arith) in
    (
      w1,
      w2,
      begun,
      ended,
      called
          ∙ append_assoc w.calls (prepare ∷ [])
              (rest_calls (n + 1) (n + 2) key (offset + length c) cs),
      written,
    )
