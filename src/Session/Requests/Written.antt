-- ===== src/Session/Requests/Written.antt =====
-- A write of elliptics/session.go from its start to its end.
use elliptics_go.Base.{
  ℕ, ◌+◌, ◌<◌, ◌≡◌, ◌≢◌, refl, List, [], ◌∷◌, ◌++◌, Option, none, some, String, true, false, arith,
  ◌∙◌, eqb, Bool-cases, inl, inr,
}
use elliptics_go.Base.Dict.{lookup, insert, lookup-insert_self}
use elliptics_go.Base.Eq.{nat_eq, eq_refl, eq_of_ne}
use elliptics_go.Base.Word.{add64, u64_mod, add64_exact}
use elliptics_go.Errors.{Error, ok}
use elliptics_go.Pool.{ContextPool, get, store, delete_context, next_context}
use elliptics_go.Pool.Laws.{get-store, get-delete_context}
use elliptics_go.Session.Results.{Item, lookup_item, lookup_error}
use elliptics_go.Session.World.{
  World, Channel, Value, chunk, to_channel, on_write, on_write_finish, send, close, make_chan,
  new_context, remember, forget, issue, Call, session_write_data,
}
use elliptics_go.Session.Callback.{
  Reply, call_result, result_callback, final_callback, call_final, write_finish, tell, send_error,
  error_item,
}
use elliptics_go.Session.Writes.{write_key, write_input, write, register_write}

abbrev put : ℕ → Channel → World → World
put ch c w = record w { chans = insert ch c w.chans }

get-delete_self : (k : ℕ) (p : ContextPool Value) → get k (delete_context k p) ≡ none
get-delete_self k p = get-delete_context k k p ∙ simp (eq_refl k)

get-delete_none :
    (k j : ℕ) (p : ContextPool Value) → get j p ≡ none → get j (delete_context k p) ≡ none
get-delete_none k j p h =
    get-delete_context k j p
    ∙ elim (Bool-cases (eqb k j)) [ inl same ↦ simp same | inr ne ↦ simp (ne, h) ]

-- The contexts of a write are gone, and its channel carries `items` and is closed.
abbrev pub Written : ℕ → ℕ → ℕ → ℕ → List Item → World → Type 0
Written ch r f c items w =
    (lookup ch w.chans ≡ some (record { sent = items; closed = true }))
    × (get r w.pool ≡ none)
    × (get f w.pool ≡ none)
    × (get c w.pool ≡ none)

abbrev pub lookup_ending : Option Error → List Item
lookup_ending none = []
lookup_ending (some e) = lookup_item (lookup_error e) ∷ []

tell_ends :
    (ch : ℕ) (e : Option Error) (w : World)
    → lookup ch w.chans ≡ some (record { sent = []; closed = false })
    → (w' : World) × (tell (to_channel ch) e w ≡ some w')
      × (w'.pool ≡ w.pool)
      × (lookup ch w'.chans ≡ some (record { sent = lookup_ending e; closed = true }))
unfolding tell send_error send close error_item
tell_ends ch none w there = (
  put ch (record { sent = []; closed = true }) w,
  simp there,
  refl,
  lookup-insert_self ch _ w.chans,
)
tell_ends ch (some e) w there =
    let items = lookup_item (lookup_error e) ∷ [] in
    let told = put ch (record { sent = items; closed = false }) w in
    (
      put ch (record { sent = items; closed = true }) told,
      simp (there, lookup-insert_self ch (record { sent = items; closed = false }) w.chans),
      refl,
      lookup-insert_self ch (record { sent = items; closed = true }) told.chans,
    )

pub forget_all :
    (r f c : ℕ) (p : ContextPool Value)
    → let p' = delete_context c (delete_context f (delete_context r p)) in
      (get r p' ≡ none) × (get f p' ≡ none) × (get c p' ≡ none)
forget_all r f c p = (
  get-delete_none c r (delete_context f (delete_context r p))
      (get-delete_none f r (delete_context r p) (get-delete_self r p)),
  get-delete_none c f (delete_context f (delete_context r p))
      (get-delete_self f (delete_context r p)),
  get-delete_self c (delete_context f (delete_context r p)),
)

write_finish_ends :
    (ch r f c : ℕ) (e : Option Error) (w : World)
    → lookup ch w.chans ≡ some (record { sent = []; closed = false })
    → (w' : World) × (write_finish (to_channel ch) r f c e w ≡ some w')
      × Written ch r f c (lookup_ending e) w'
unfolding write_finish forget
write_finish_ends ch r f c e w there =
    let (w', told, pool, closed) = tell_ends ch e (forget c (forget f (forget r w))) there in
    let (no_r, no_f, no_c) = forget_all r f c w.pool in
    (w', told, (closed, rw pool no_r, rw pool no_f, rw pool no_c))

-- A write with its closures in the pool, and its end.
abbrev begun : ℕ → ℕ → ℕ → ℕ → List ℕ → Call → World → World
begun ch r f c bytes call w = issue call (
    remember c (chunk bytes) (
      remember f (on_write_finish (to_channel ch) r f c) (remember r (on_write (to_channel ch)) w)))

begun-stored :
    (ch r f c : ℕ) (bytes : List ℕ) (call : Call) (w : World)
    → (get c (begun ch r f c bytes call w).pool ≡ some (chunk bytes))
      × ((begun ch r f c bytes call w).calls ≡ w.calls ++ call ∷ [])
unfolding remember issue
begun-stored ch r f c bytes call w =
    let v = on_write_finish (to_channel ch) r f c in
    let p = store f v (store r (on_write (to_channel ch)) w.pool) in
    (get-store c c (chunk bytes) p ∙ simp (eq_refl c), refl)

begun-final :
    (ch r f c : ℕ) (bytes : List ℕ) (call : Call) (e : Option Error) (w : World)
    → c ≢ f
    → lookup ch w.chans ≡ some (record { sent = []; closed = false })
    → (w2 : World) × (final_callback f e (begun ch r f c bytes call w) ≡ some w2)
      × Written ch r f c (lookup_ending e) w2
unfolding final_callback call_final remember issue
begun-final ch r f c bytes call e w ne there =
    let v = on_write_finish (to_channel ch) r f c in
    let p = store f v (store r (on_write (to_channel ch)) w.pool) in
    let found : get f (store c (chunk bytes) p) ≡ some v =
      get-store c f (chunk bytes) p
      ∙ simp (
        eq_of_ne c f ne,
        get-store f f v (store r (on_write (to_channel ch)) w.pool),
        eq_refl f,
      ) in
    let (w2, ends, written) = write_finish_ends ch r f c e (begun ch r f c bytes call w) there in
    (w2, simp (found, ends), written)

begun-answer :
    (keys_find : List String → List ℕ → Option String) (ch r f c : ℕ) (bytes : List ℕ) (call : Call)
    (reply : Reply) (w : World)
    → f ≢ r
    → c ≢ r
    → result_callback keys_find r reply (begun ch r f c bytes call w) ≡ none
unfolding result_callback call_result remember issue
begun-answer keys_find ch r f c bytes call reply w f_ne c_ne =
    let x = on_write (to_channel ch) in
    let v = on_write_finish (to_channel ch) r f c in
    let found : get r (store c (chunk bytes) (store f v (store r x w.pool))) ≡ some x =
      get-store c r (chunk bytes) (store f v (store r x w.pool))
      ∙ simp (
        eq_of_ne c r c_ne,
        get-store f r v (store r x w.pool),
        eq_of_ne f r f_ne,
        get-store r r x w.pool,
        eq_refl r,
      ) in
    simp found

-- WriteKey of some bytes, while fewer than 2^64 contexts are handed out: it does not panic; its
-- three contexts are the next numbers, and the bytes stay in the pool under the third, with C's
-- call made on them. Any answer of C to it then panics, as its closure has not the type that the
-- callback asserts. If C ends it with no answer, that does not panic: the error is sent, if there is
-- one, the channel is closed, and the three contexts are taken out of the pool.
pub write_key-final :
    (keys_find : List String → List ℕ → Option String) (key : String) (b : ℕ) (bs : List ℕ)
    (offset : ℕ) (e : Option Error) (w : World)
    → w.pool.counter + 3 < u64_mod
    → (w1 : World) × (w2 : World) × (write_key key (ok (b ∷ bs)) offset w ≡ some (w1, w.next_chan))
      × (get (w.pool.counter + 3) w1.pool ≡ some (chunk (b ∷ bs)))
      × (w1.calls
          ≡ w.calls
            ++ session_write_data (w.pool.counter + 1) (w.pool.counter + 2) key offset (b ∷ bs)
              ∷ [])
      × ((reply : Reply) → result_callback keys_find (w.pool.counter + 1) reply w1 ≡ none)
      × (final_callback (w.pool.counter + 2) e w1 ≡ some w2)
      × Written w.next_chan
          (w.pool.counter + 1)
          (w.pool.counter + 2)
          (w.pool.counter + 3)
          (lookup_ending e)
          w2
unfolding write_key write_input write register_write make_chan new_context next_context
write_key-final keys_find key b bs offset e w lt =
    let n = w.pool.counter in
    let first : add64 n 1 ≡ n + 1 = add64_exact n 1 (omega arith) in
    let second : add64 (n + 1) 1 ≡ n + 2 = add64_exact (n + 1) 1 (omega arith) ∙ omega arith in
    let third : add64 (n + 2) 1 ≡ n + 3 = add64_exact (n + 2) 1 (omega arith) ∙ omega arith in
    let w0 : World = record (make_chan w).0 { pool = record w.pool { counter = n + 3 } } in
    let call = session_write_data (n + 1) (n + 2) key offset (b ∷ bs) in
    let w1 = begun w.next_chan (n + 1) (n + 2) (n + 3) (b ∷ bs) call w0 in
    let (w2, ends, written) =
      begun-final w.next_chan (n + 1) (n + 2) (n + 3) (b ∷ bs) call e w0 (omega arith)
        (lookup-insert_self w.next_chan (record { sent = []; closed = false }) w.chans) in
    let (kept, called) = begun-stored w.next_chan (n + 1) (n + 2) (n + 3) (b ∷ bs) call w0 in
    let panics : (reply : Reply) → result_callback keys_find (n + 1) reply w1 ≡ none = λ reply.
      begun-answer keys_find w.next_chan (n + 1) (n + 2) (n + 3) (b ∷ bs) call reply w0
        (omega arith) (omega arith) in
    (w1, w2, rw (first, second, third) refl, kept, called, panics, ends, written)
