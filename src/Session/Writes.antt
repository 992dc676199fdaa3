-- ===== src/Session/Writes.antt =====
-- The writes of elliptics/session.go: Write, Cache, WriteKey and WriteCache. What io.Reader gave is an
-- argument, as is whether the C library allocated a key. `none` is a panic.
use elliptics_go.Base.{ℕ, List, [], ◌∷◌, Option, none, some, ◌>>=◌, String, Bool, true, false}
use elliptics_go.Base.Int.{negsuc, pos, to_int64}
use elliptics_go.Base.Eq.{nat_eq}
use elliptics_go.Errors.{Error, dnet, text, Result, ok, err}
use elliptics_go.Session.Results.{lookup_item, lookup_error}
use elliptics_go.Session.World.{
  Sink, to_channel, to_caller, nowhere, on_write, on_write_finish, chunk, World, session_write_data,
  session_write_cache, send, close, make_chan, remember, new_context, issue, notify,
}
use elliptics_go.Session.Requests.{Opened, new_key, failed_chan}

-- The three contexts of write and cache, with their closures and the data stored under them.
unfoldable pub register_write : Sink → Sink → List ℕ → World → World × Opened
register_write lookup_sink sink bytes w =
    let (w1, r) = new_context w in
    let (w2, f) = new_context w1 in
    let (w3, c) = new_context w2 in
    (
      remember c (chunk bytes)
          (remember f (on_write_finish sink r f c) (remember r (on_write lookup_sink) w3)),
      record { ch = c; r = r; f = f },
    )

-- (s *Session) write: the pointer to the data is taken after the closures are stored.
unfoldable pub write : String → List ℕ → ℕ → Sink → Sink → World → Option World
write key [] offset lookup_sink sink w = none
write key (b ∷ bs) offset lookup_sink sink w =
    let (w1, o) = register_write lookup_sink sink (b ∷ bs) w in
    some (issue (session_write_data o.r o.f key offset (b ∷ bs)) w1)

-- (s *Session) cache; C.long(timeout) is negative from 2^63 on.
unfoldable pub cache : String → List ℕ → ℕ → Sink → Sink → World → Option World
cache key [] timeout lookup_sink sink w = none
cache key (b ∷ bs) timeout lookup_sink sink w =
    let (w1, o) = register_write lookup_sink sink (b ∷ bs) w in
    some (issue (session_write_cache o.r o.f key (b ∷ bs) (to_int64 (pos timeout))) w1)

-- onResult(err), if the caller gave a function
unfoldable pub tell_caller : Sink → Error → World → World
tell_caller (to_caller u) e w = notify u (some e) w
tell_caller (to_channel ch) e w = w
tell_caller nowhere e w = w

-- Write
unfoldable pub write_bytes : Bool → String → List ℕ → ℕ → Sink → Sink → World → Option World
unfolding tell_caller
write_bytes allocated key bytes offset lookup_sink sink w = elim (new_key allocated key) [
  | err e ↦ some (tell_caller sink e w)
  | ok ekey ↦ write ekey bytes offset lookup_sink sink w
]

-- Cache
unfoldable pub cache_bytes : Bool → String → List ℕ → ℕ → Sink → Sink → World → Option World
unfolding tell_caller
cache_bytes false key bytes timeout lookup_sink sink w =
    some (tell_caller sink (text "could not create new key") w)
cache_bytes true key [] timeout lookup_sink sink w =
    some (tell_caller sink (text "Invalid zero-length write request") w)
cache_bytes true key (b ∷ bs) timeout lookup_sink sink w =
    cache key (b ∷ bs) timeout lookup_sink sink w

abbrev pub zero_length_write : Error
zero_length_write =
    dnet (record { code = negsuc 21; flags = 0; message = "Invalid zero-length write request" })

-- The channel told of an error at once, and closed.
unfoldable pub refuse : ℕ → Error → World → Option (World × ℕ)
refuse ch e w = do
  told ← send ch (lookup_item (lookup_error e)) w
  ended ← close ch told
  some (ended, ch)

-- WriteKey and WriteCache after their channel was made, with what ioutil.ReadAll gave.
unfoldable pub write_input :
    (List ℕ → Sink → World → Option World) → Result (List ℕ) → World → Option (World × ℕ)
unfolding refuse
write_input action (err e) w = let (w1, ch) = make_chan w in refuse ch e w1
write_input action (ok []) w = let (w1, ch) = make_chan w in refuse ch zero_length_write w1
write_input action (ok (b ∷ bs)) w = do
  let (w1, ch) = make_chan w
  w2 ← action (b ∷ bs) (to_channel ch) w1
  some (w2, ch)

-- WriteKey
unfoldable pub write_key : String → Result (List ℕ) → ℕ → World → Option (World × ℕ)
unfolding write_input
write_key key input offset w = write_input (λ bytes sink. write key bytes offset sink sink) input w

-- WriteCache
unfoldable pub write_cache : Bool → String → Result (List ℕ) → ℕ → World → Option (World × ℕ)
unfolding write_input
write_cache allocated key input timeout w = elim (new_key allocated key) [
  | err e ↦ failed_chan (lookup_item (lookup_error e)) w
  | ok ekey ↦ write_input (λ bytes sink. cache ekey bytes timeout sink sink) input w
]
