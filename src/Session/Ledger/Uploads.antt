-- ===== src/Session/Ledger/Uploads.antt =====
-- A chunked write up to its first call.
use elliptics_go.Base.{
  ℕ, ◌+◌, ◌<◌, ◌≡◌, ◌⊎◌, inl, inr, refl, sym, subst, List, [], ◌∷◌, ◌++◌, Option, none, some, true,
  false, arith, Bool-cases,
}
use elliptics_go.Base.Word.{u64_mod}
use elliptics_go.Base.Dict.{Dict, insert, lookup-insert_self}
use elliptics_go.Base.Eq.{nat_eq}
use elliptics_go.Errors.{Error, text}
use elliptics_go.Session.Results.{lookup_item, lookup_error}
use elliptics_go.Session.World.{
  on_chunk, on_chunk_finish, chunk, Channel, Upload, World, make_chan, remember, issue, set_upload,
}
use elliptics_go.Session.Requests.{Opened}
use elliptics_go.Session.Uploads.{
  write_chunk, first_read, begin_chunks, report_empty, announce, register_chunks, prepare_call,
  no_first_chunk,
}
use elliptics_go.Session.Uploads.Complete.{opened}
use elliptics_go.Session.Chunks.{took}
use elliptics_go.Session.Ledger.{uploading, called}
use elliptics_go.Session.Ledger.Frame.{Within, with_chan-Within, set_upload-Within}
use elliptics_go.Session.Ledger.Turns.{IsOpen, Backed}
use elliptics_go.Session.Ledger.Answers.{open_with, send-open}
use elliptics_go.Session.Ledger.Fresh.{made, made-Within, made-IsOpen, stored_three, Begun}
use elliptics_go.Session.Ledger.Begins.{three_stored-Within}
use elliptics_go.Session.Ledger.Ends.{called_issue}
use elliptics_go.Session.Ledger.Refusals.{Refuses, refuse-Refuses}

opened_at :
    (u : Upload) (w : World)
    → w.pool.counter + 3 < u64_mod
    → let r = w.pool.counter + 1 in
      write_chunk u w
      ≡ first_read
          (record { ch = w.next_chan; r = r; f = r + 1 })
          (r + 2)
          (u.reader u.reads)
          u
          (made (r + 2) w)
opened_at u w lt =
    let n = w.pool.counter in
    let two : n + 1 + 1 ≡ n + 2 = omega arith in
    let three : n + 1 + 2 ≡ n + 3 = omega arith in rw (two, three) (opened u w lt)

-- A chunked write is under way with its first call, or it is refused.
abbrev pub BegunOrRefuses : World → Option (World × ℕ) → Type 0
BegunOrRefuses w result =
    ((w' : World) × (result ≡ some (w', w.next_chan))
      × Begun (uploading (w.pool.counter + 1)) w w'
      × (called w w' ≡ true))
    ⊎ ((w' : World) × (result ≡ some (w', w.next_chan)) × Refuses w w' × (w'.calls ≡ w.calls))

-- The error of an empty first Read, while the request goes on.
report_empty-IsOpen :
    {lo hi : ℕ} {ks : Option ℕ} {w : World} (ch : ℕ) (bytes : List ℕ) (offset total_size : ℕ)
    (v : World)
    → Within ch lo hi ks w v
    → IsOpen ch v
    → (m : Dict ℕ Channel) × (report_empty ch bytes offset total_size v
        ≡ some (record v { chans = m }))
      × Within ch lo hi ks w (record v { chans = m })
      × IsOpen ch (record v { chans = m })
unfolding report_empty
report_empty-IsOpen ch [] offset total_size v p (sent, here) =
    let item = lookup_item (lookup_error (no_first_chunk offset total_size)) in
    let c = open_with (sent ++ item ∷ []) in
    (
      insert ch c v.chans,
      send-open ch v sent item here,
      with_chan-Within p c,
      (sent ++ item ∷ [], lookup-insert_self ch c v.chans),
    )
report_empty-IsOpen ch (b ∷ bs) offset total_size v p is_open = (v.chans, refl, p, is_open)

module _ (u : Upload) (bytes : List ℕ) (w : World) where
  -- The key cannot be made.
  begin_chunks_refused :
      u.allocates u.reads ≡ false
      → let r = w.pool.counter + 1 in
        BegunOrRefuses w (
          begin_chunks
            (record { ch = w.next_chan; r = r; f = r + 1 })
            (r + 2)
            bytes
            u
            (made (r + 2) w))
  unfolding begin_chunks announce make_chan
  begin_chunks_refused failed =
      let r = w.pool.counter + 1 in
      let (m, told, p, is_open) =
        report_empty-IsOpen w.next_chan bytes u.offset u.total_size (made (r + 2) w)
          (made-Within w (r + 2) r (omega arith)) (made-IsOpen (r + 2) w) in
      let v : World = record (made (r + 2) w) { chans = m } in
      let (w', run, refused, calls) =
        refuse-Refuses w v (text "could not create new key") p is_open in
      inr (w', rw (told, failed) run, refused, calls)

  begin_chunks-Begun :
      u.allocates u.reads ≡ true
      → let r = w.pool.counter + 1 in
        BegunOrRefuses w (
          begin_chunks
            (record { ch = w.next_chan; r = r; f = r + 1 })
            (r + 2)
            bytes
            u
            (made (r + 2) w))
  unfolding begin_chunks announce register_chunks make_chan remember issue set_upload
  begin_chunks-Begun allocated =
      let r = w.pool.counter + 1 in
      let ch = w.next_chan in
      let o : Opened = record { ch = ch; r = r; f = r + 1 } in
      let (m, told, p, is_open) =
        report_empty-IsOpen ch bytes u.offset u.total_size (made (r + 2) w)
          (made-Within w (r + 2) (r + 3) (omega arith)) (made-IsOpen (r + 2) w) in
      let u' = took bytes u in
      let v : World = record (made (r + 2) w) { chans = m } in
      let v' = set_upload ch u' v in
      let x = on_chunk ch in
      let y = on_chunk_finish ch r (r + 1) (r + 2) in
      let z = chunk bytes in
      let (first, second, third) = stored_three r x y z v'.pool in
      let c = prepare_call o bytes u' in
      let w' = issue c (remember (r + 2) z (remember (r + 1) y (remember r x v'))) in
      let under_way : Backed ch (uploading r) w' = record {
        closures = (first, second, (bytes, third));
        channel = is_open;
        keys = tt;
        upload = (u', lookup-insert_self ch u' w.uploads);
        known = (omega arith, omega arith);
      } in
      inl (
        w',
        rw (told, allocated) refl,
        record {
          within = three_stored-Within (set_upload-Within p u') x y z c;
          left = (under_way, refl, refl, refl);
        },
        called_issue w w' c refl,
      )

pub write_chunk-BegunOrRefuses :
    (u : Upload) (w : World) → w.pool.counter + 3 < u64_mod → BegunOrRefuses w (write_chunk u w)
unfolding first_read make_chan
write_chunk-BegunOrRefuses u w lt =
    let r = w.pool.counter + 1 in
    subst (BegunOrRefuses w) (sym (opened_at u w lt)) (by_read (u.reader u.reads))
  where
    by_read :
        (got : List ℕ × Option Error)
        → let r' = w.pool.counter + 1 in
          BegunOrRefuses w (
            first_read
              (record { ch = w.next_chan; r = r'; f = r' + 1 })
              (r' + 2)
              got
              u
              (made (r' + 2) w))
    by_read (bytes, some e) =
        let r' = w.pool.counter + 1 in
        let (w', run, refused, calls) =
          refuse-Refuses w (made (r' + 2) w) e (made-Within w (r' + 2) r' (omega arith))
            (made-IsOpen (r' + 2) w) in
        inr (w', run, refused, calls)
    by_read (bytes, none) = elim (Bool-cases (u.allocates u.reads)) [
      | inl allocated ↦ begin_chunks-Begun u bytes w allocated
      | inr failed ↦ begin_chunks_refused u bytes w failed
    ]
