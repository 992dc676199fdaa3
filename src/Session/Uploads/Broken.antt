-- ===== src/Session/Uploads/Broken.antt =====
-- A chunked write of elliptics/session.go that fails under way.
use elliptics_go.Base.{
  ℕ, ◌+◌, ◌<◌, ◌≡◌, ◌∙◌, refl, sym, subst, List, [], ◌∷◌, ◌++◌, Option, none, some, String, Bool,
  true, false, arith, length, All,
}
use elliptics_go.Base.Dict.{insert, lookup-insert_self}
use elliptics_go.Base.Eq.{nat_eq}
use elliptics_go.Base.Word.{u64_mod}
use elliptics_go.Errors.{Error}
use elliptics_go.Session.Results.{lookup_item, lookup_error}
use elliptics_go.Session.World.{Upload, World, Channel, Call, send, close, forget}
use elliptics_go.Session.Chunks.{chunk_call, chunk_end, chunk_fail, chunk_finish}
use elliptics_go.Session.Callback.{final_callback, call_final}
use elliptics_go.Session.Requests.Written.{Written, forget_all}
use elliptics_go.Session.Uploads.{write_chunk}
use elliptics_go.Session.Uploads.Complete.{fresh, write_chunk-Uploading}
use elliptics_go.Session.Uploads.Tiles.{
  at, Gives, IsChunk, size_of, acknowledge, took_next, more_left, Uploading, acknowledge_chunk,
}

-- An acknowledgement with an error, at any time.
acknowledge_error :
    (ch r f b : ℕ) (u : Upload) (calls : List Call) (e : Error) (w : World)
    → Uploading ch r f b u calls w
    → (w' : World) × (final_callback f (some e) w ≡ some w')
      × Written ch r f b (lookup_item (lookup_error e) ∷ []) w'
      × (w'.calls ≡ calls)
unfolding final_callback call_final chunk_finish chunk_fail chunk_end send close forget
acknowledge_error ch r f b u calls e w up =
    let told : Channel = record { sent = lookup_item (lookup_error e) ∷ []; closed = false } in
    let shut : Channel = record { sent = lookup_item (lookup_error e) ∷ []; closed = true } in
    let chans = insert ch told w.chans in
    let (no_r, no_f, no_b) = forget_all r f b w.pool in
    (
      forget b (forget f (forget r (record w { chans = insert ch shut chans }))),
      simp (up.finisher, up.channel, lookup-insert_self ch told w.chans),
      (lookup-insert_self ch shut chans, no_r, no_f, no_b),
      up.called,
    )

module _ (ch r f b : ℕ) (u : Upload) (made : (k : ℕ) → u.allocates k ≡ true) where
  -- The acknowledgements of some of the chunks that are left.
  acknowledge_first :
      (k o : ℕ) (done more : List (List ℕ)) (calls : List Call) (w : World)
      → Uploading ch r f b (at u k o (size_of (done ++ more))) calls w
      → All IsChunk (done ++ more)
      → Gives u.reader k (done ++ more)
      → o + size_of (done ++ more) < u64_mod
      → (u' : Upload) × (calls' : List Call) × (w' : World) × (acknowledge (length done) f w
          ≡ some w')
        × Uploading ch r f b u' calls' w'
  unfolding acknowledge
  acknowledge_first k o [] more calls w up full given fits = (_, calls, w, refl, up)
  acknowledge_first k o (c ∷ cs) more calls w up (one, full) (given, rest) fits =
      let u0 = at u k o (size_of (c ∷ cs ++ more)) in
      let u1 = at u (k + 1) (o + length c) (size_of (cs ++ more)) in
      let next = took_next u k o c (cs ++ more) fits in
      let (w1, first, up1) =
        acknowledge_chunk ch r f b u0 c calls w up (more_left c (cs ++ more) one) given one
          (made k) in
      let under_way : Uploading ch r f b u1 (calls ++ chunk_call r f c u1 ∷ []) w1 =
        subst (λ v. Uploading ch r f b v (calls ++ chunk_call r f c v ∷ []) w1) next up1 in
      let (u', calls', w2, goes, up2) =
        acknowledge_first (k + 1) (o + length c) cs more (calls ++ chunk_call r f c u1 ∷ []) w1
          under_way full rest (omega arith) in
      (u', calls', w2, rw first goes, up2)

-- WriteChunk of chunks that are together as long as its caller says, from an input that gives them
-- one by one, while fewer than 2^64 contexts are handed out and the offsets stay below 2^64, where C
-- acknowledges some of the writes and then reports an error: nothing panics. The error is the one
-- thing that these callbacks send, and no call follows it; the channel is closed, and the three
-- contexts are out of the pool.
pub write_chunk_broken :
    (key : String) (reader : ℕ → List ℕ × Option Error) (allocates : ℕ → Bool) (offset : ℕ)
    (c : List ℕ) (done more : List (List ℕ)) (e : Error) (w : World)
    → ((k : ℕ) → allocates k ≡ true)
    → reader 0 ≡ (c, none)
    → Gives reader 1 (done ++ more)
    → All IsChunk (c ∷ done ++ more)
    → offset + size_of (c ∷ done ++ more) < u64_mod
    → w.pool.counter + 3 < u64_mod
    → let r = w.pool.counter + 1 in
      let f = w.pool.counter + 2 in
      (w1 : World) × (w2 : World) × (w3 : World) × (write_chunk
          (fresh key reader allocates offset (size_of (c ∷ done ++ more)))
          w
        ≡ some (w1, w.next_chan))
      × (acknowledge (length done) f w1 ≡ some w2)
      × (final_callback f (some e) w2 ≡ some w3)
      × Written w.next_chan r f (w.pool.counter + 3) (lookup_item (lookup_error e) ∷ []) w3
      × (w3.calls ≡ w2.calls)
write_chunk_broken key reader allocates offset c done more e w made first given (full, others) fits
      lt =
    let n = w.pool.counter in
    let u = fresh key reader allocates offset (size_of (c ∷ done ++ more)) in
    let (w1, begun, up) =
      write_chunk-Uploading key reader allocates offset c (done ++ more) w made first full fits
        lt in
    let (u', calls', w2, goes, up2) =
      acknowledge_first w.next_chan (n + 1) (n + 2) (n + 3) u made 1 (offset + length c) done more _
        w1 up others given (omega arith) in
    let (w3, ended, written, called) =
      acknowledge_error w.next_chan (n + 1) (n + 2) (n + 3) u' calls' e w2 up2 in
    (w1, w2, w3, begun, goes, ended, written, called ∙ sym up2.called)
