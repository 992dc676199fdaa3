-- ===== src/Session/Delivery/Order/Uploads.antt =====
-- The numbers in the closures of a world, and new chunked writes and status requests.
use elliptics_go.Base.{
  ℕ, ◌+◌, ◌≤◌, ◌<◌, ◌≡◌, List, [], ◌∷◌, Option, none, some, >>=-eq-some, arith, Bool-cases, inl,
  inr, subst,
}
use elliptics_go.Base.Word.{u64_mod}
use elliptics_go.Base.Eq.{nat_eq}
use elliptics_go.Pool.{store}
use elliptics_go.Session.World.{chunk, World, remember, new_context, make_chan}
use elliptics_go.Session.Delivery.Shrinks.{
  Shrinks, same-Shrinks, chain-Shrinks, send-Shrinks, close-Shrinks,
}
use elliptics_go.Session.World.{
  on_chunk, on_chunk_finish, on_status, send, close, Upload, set_upload, issue,
}
use elliptics_go.Session.Uploads.{
  write_chunk, announce, first_read, begin_chunks, report_empty, register_chunks,
}
use elliptics_go.Session.Chunks.{took}
use elliptics_go.Session.Writes.{refuse}
use elliptics_go.Session.Backends.{open_status}
use elliptics_go.Session.Results.{lookup_item, lookup_error}
use elliptics_go.Errors.{Error, text}
use elliptics_go.Session.Delivery.Order.{
  Shrinks-Orderly, remember-Orderly, Ordered, new_context-Ordered, make_chan-Ordered,
}

refuse-Shrinks :
    (ch : ℕ) (e : Error) (w w' : World) (got : ℕ) → refuse ch e w ≡ some (w', got) → Shrinks w w'
unfolding refuse
refuse-Shrinks ch e w w' got ran =
    let (told, e1, rest) = >>=-eq-some (send ch (lookup_item (lookup_error e)) w) _ ran in
    let (ended, e2, last) = >>=-eq-some (close ch told) _ rest in
    let same : ended ≡ w' = cc in
    chain-Shrinks w told w' (send-Shrinks ch _ w told e1)
      (subst (Shrinks told) same (close-Shrinks ch told ended e2))

pub Shrinks-Ordered : (top : ℕ) (w w' : World) → Shrinks w w' → Ordered top w → Ordered top w'
Shrinks-Ordered top w w' shrinks (orderly, le) =
    (Shrinks-Orderly w w' shrinks orderly, omega (arith, shrinks.1))

-- The contexts and the channel of a chunked write, in a world that handed them out.
module _ (top ch r f c : ℕ) where
  abbrev Names : World → Type 0
  Names w = (ch < w.next_chan) × (r ≤ w.pool.counter) × (f ≤ w.pool.counter) × (c ≤ w.pool.counter)

  -- What a call stores and issues, in the world that it is said to give.
  same_pair-Ordered :
      (w w' : World) (n named : ℕ)
      → Ordered top w
      → ◌≡◌ {A = Option (World × ℕ)} (some (w, n)) (some (w', named))
      → Ordered top w'
  same_pair-Ordered w w' n named ord e = let same : w ≡ w' = cc in subst (Ordered top) same ord

  register_chunks-Ordered :
      (bytes : List ℕ) (w : World)
      → Ordered top w
      → Names w
      → Ordered top (register_chunks (record { ch = ch; r = r; f = f }) c bytes w)
  unfolding register_chunks remember store
  register_chunks-Ordered bytes w (orderly, le) (mch, mr, mf, mc) =
      let s1 = remember-Orderly r (on_chunk ch) w mch orderly in
      let w1 = remember r (on_chunk ch) w in
      let s2 = remember-Orderly f (on_chunk_finish ch r f c) w1 (mch, mr, mf, mc) s1 in
      (remember-Orderly c (chunk bytes) (remember f (on_chunk_finish ch r f c) w1) tt s2, le)

  report_empty-Shrinks :
      (bytes : List ℕ) (offset size : ℕ) (w w' : World)
      → report_empty ch bytes offset size w ≡ some w'
      → Shrinks w w'
  unfolding report_empty
  report_empty-Shrinks [] offset size w w' ran = send-Shrinks ch _ w w' ran
  report_empty-Shrinks (b ∷ bs) offset size w w' ran = same-Shrinks w w' ran

  announce-Ordered :
      (bytes : List ℕ) (u : Upload) (w w' : World) (named : ℕ)
      → Ordered top w
      → Names w
      → announce (record { ch = ch; r = r; f = f }) c bytes u w ≡ some (w', named)
      → Ordered top w'
  unfolding announce set_upload issue
  announce-Ordered bytes u w w' named ord names ran =
      let ready = set_upload ch (took bytes u) w in
      let ord1 = register_chunks-Ordered bytes ready ord names in
      elim (Bool-cases (u.allocates u.reads)) [
        | inl made ↦ same_pair-Ordered _ w' ch named ord1 (rw made at ran)
        | inr refused ↦
            Shrinks-Ordered top w w'
              (refuse-Shrinks ch (text "could not create new key") w w' named (rw refused at ran))
              ord
      ]

  first_read-Ordered :
      (got : List ℕ × Option Error) (u : Upload) (w w' : World) (named : ℕ)
      → Ordered top w
      → Names w
      → first_read (record { ch = ch; r = r; f = f }) c got u w ≡ some (w', named)
      → Ordered top w'
  unfolding first_read begin_chunks
  first_read-Ordered (bytes, some e) u w w' named ord names ran =
      Shrinks-Ordered top w w' (refuse-Shrinks ch e w w' named ran) ord
  first_read-Ordered (bytes, none) u w w' named ord (mch, mr, mf, mc) ran =
      let (told, e1, rest) = >>=-eq-some (report_empty ch bytes u.offset u.total_size w) _ ran in
      let shrinks = report_empty-Shrinks bytes u.offset u.total_size w told e1 in
      announce-Ordered bytes u told w' named (Shrinks-Ordered top w told shrinks ord)
        (
          omega (arith, shrinks.0),
          omega (arith, shrinks.1),
          omega (arith, shrinks.1),
          omega (arith, shrinks.1),
        )
        rest

pub write_chunk-Ordered :
    (top : ℕ) (u : Upload) (w w' : World) (named : ℕ)
    → Ordered top w
    → top + 3 < u64_mod
    → write_chunk u w ≡ some (w', named)
    → Ordered (top + 3) w'
unfolding write_chunk
write_chunk-Ordered top u w w' named ord lt ran =
    let (o0, made) = make_chan-Ordered top w ord in
    let w1 = (make_chan w).0 in
    let (o1, r_made, n1, c1) = new_context-Ordered top w1 o0 (omega arith) in
    let w2 = (new_context w1).0 in
    let (o2, f_made, n2, c2) = new_context-Ordered (top + 1) w2 o1 (omega arith) in
    let w3 = (new_context w2).0 in
    let (o3, c_made, n3, c3) = new_context-Ordered (top + 1 + 1) w3 o2 (omega arith) in
    let w4 = (new_context w3).0 in
    let ended =
      first_read-Ordered (top + 1 + 1 + 1) (make_chan w).1 (new_context w1).1 (new_context w2).1
        (new_context w3).1 (u.reader u.reads) u w4 w' named o3
        (
          omega (arith, made, n1, n2, n3),
          omega (arith, r_made, c2, c3),
          omega (arith, f_made, c3),
          c_made,
        )
        ran in
    (ended.0, omega (arith, ended.1))

pub open_status-Ordered :
    (top : ℕ) (w : World) → Ordered top w → top + 1 < u64_mod → Ordered (top + 1) (open_status w).0
unfolding open_status remember store
open_status-Ordered top w ord lt =
    let (o0, made) = make_chan-Ordered top w ord in
    let w1 = (make_chan w).0 in
    let (o1, k_made, n1, c1) = new_context-Ordered top w1 o0 lt in
    (
      remember-Orderly (new_context w1).1 (on_status (make_chan w).1 (new_context w1).1)
          (new_context w1).0 (omega (arith, made, n1), k_made) o1.0,
      o1.1,
    )
