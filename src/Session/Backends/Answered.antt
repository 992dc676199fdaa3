-- ===== src/Session/Backends/Answered.antt =====
-- A request of elliptics/backend.go with its one answer.
use elliptics_go.Base.{
  ℕ, ◌+◌, ◌<◌, ◌≡◌, refl, ap, ◌∙◌, List, [], ◌∷◌, ◌++◌, Option, none, some, String, true, false,
  map,
}
use elliptics_go.Base.Int.{ℤ}
use elliptics_go.Base.Dict.{lookup, insert, lookup-insert_self}
use elliptics_go.Base.Eq.{nat_eq, eq_refl}
use elliptics_go.Base.Word.{add64, u64_mod, add64_exact}
use elliptics_go.Wire.Address.{DnetAddr, CDnetAddr, c_addr}
use elliptics_go.Pool.{get, next_context}
use elliptics_go.Pool.Laws.{get-store, get-delete_context}
use elliptics_go.Session.Results.{DnetBackendsStatus, status_item}
use elliptics_go.Session.World.{
  Channel, on_status, World, Call, session_backends_status, session_backend_start_defrag,
  session_backend_enable, session_backend_disable, session_backend_make_writable,
  session_backend_make_readonly, session_backend_set_delay, make_chan, remember, new_context, issue,
  send, close, forget,
}
use elliptics_go.Session.Callback.{
  Reply, status_reply, CError, result_callback, call_result, status_result,
}
use elliptics_go.Session.Arrival.{reply_error}
use elliptics_go.Session.Backends.{
  CBackendStatus, backend_status, open_status, ask_status, to_uint32, backends_status,
  backend_start_defrag, backend_enable, backend_disable, backend_make_writable,
  backend_make_read_only, backend_set_delay, go_backend_status_callback, go_backend_status_error,
}

module _ (keys_find : List String → List ℕ → Option String) where
  -- The request is over: its channel has this one item and is closed, and a second answer panics.
  abbrev pub Over : ℕ → ℕ → DnetBackendsStatus → Option World → Type 0
  Over ch k status r =
      (w : World) × (r ≡ some w)
      × (lookup ch w.chans ≡ some (record { sent = status_item status ∷ []; closed = true }))
      × (get k w.pool ≡ none)
      × ((again : Reply) → result_callback keys_find k again w ≡ none)

  -- A request made one call, and whichever answer C gives to it ends it.
  abbrev pub Asks : (ℕ → Call) → World → World × ℕ → Type 0
  Asks call w (w1, ch) =
      let k = w.pool.counter + 1 in
      (w1.calls ≡ w.calls ++ call k ∷ [])
      × (ch ≡ w.next_chan)
      × ((list : List CBackendStatus)
          → Over w.next_chan k (record { backends = map backend_status list; error = none })
              (go_backend_status_callback keys_find k list w1))
      × ((cerr : CError)
          → Over w.next_chan k (record { backends = []; error = some (reply_error cerr) })
              (go_backend_status_error keys_find k cerr w1))

  answer-Over :
      (ch k : ℕ) (status : DnetBackendsStatus) (w : World)
      → get k w.pool ≡ some (on_status ch k)
      → lookup ch w.chans ≡ some (record { sent = []; closed = false })
      → Over ch k status (result_callback keys_find k (status_reply status) w)
  unfolding result_callback call_result status_result send close forget
  answer-Over ch k status w stored there =
      let sent : Channel = record { sent = status_item status ∷ []; closed = false } in
      let shut : Channel = record { sent = status_item status ∷ []; closed = true } in
      let chans = insert ch sent w.chans in
      let w' : World = forget k (record w { chans = insert ch shut chans }) in
      let gone : get k w'.pool ≡ none = get-delete_context k k w.pool ∙ simp (eq_refl k) in
      (
        w',
        simp (stored, there, lookup-insert_self ch sent w.chans),
        lookup-insert_self ch shut chans,
        gone,
        λ again. simp gone,
      )

  ask_status-Asks :
      (call : ℕ → Call) (w : World) → w.pool.counter + 1 < u64_mod → Asks call w (ask_status call w)
  unfolding ask_status open_status make_chan new_context next_context remember issue
      go_backend_status_callback go_backend_status_error
  ask_status-Asks call w lt =
      let k = w.pool.counter + 1 in
      let (w1, ch) = ask_status call w in
      let next : add64 w.pool.counter 1 ≡ k = add64_exact w.pool.counter 1 lt in
      let stored : get k w1.pool ≡ some (on_status ch k) =
        rw next
          (get-store k k (on_status ch k) (record w.pool { counter = k }) ∙ simp (eq_refl k)) in
      let there = lookup-insert_self w.next_chan (record { sent = []; closed = false }) w.chans in
      (
        ap (λ j. w.calls ++ call j ∷ []) next,
        refl,
        λ list.
            answer-Over ch k (record { backends = map backend_status list; error = none }) w1 stored
              there,
        λ cerr.
            answer-Over ch k (record { backends = []; error = some (reply_error cerr) }) w1 stored
              there,
      )

-- A request about the backends of a server, while fewer than 2^64 contexts are handed out: one call
-- of C, with the server's address and the number of the backend as an unsigned 32-bit integer, and a
-- new channel. Whichever answer C then gives, a list of backends or an error, is sent on the channel,
-- which is closed, and the request's context is out of the pool, so that a second answer panics.
pub backend_requests-Asks :
    (keys_find : List String → List ℕ → Option String) (addr_size : ℕ) (tmp : CDnetAddr)
    (addr : DnetAddr) (backend_id : ℤ) (delay : ℕ) (w : World)
    → w.pool.counter + 1 < u64_mod
    → let a = c_addr addr_size addr tmp in
      let b = to_uint32 backend_id in
      Asks keys_find (session_backends_status a) w (backends_status addr_size tmp addr w)
      × Asks keys_find
          (session_backend_start_defrag a b)
          w
          (backend_start_defrag addr_size tmp addr backend_id w)
      × Asks keys_find
          (session_backend_enable a b)
          w
          (backend_enable addr_size tmp addr backend_id w)
      × Asks keys_find
          (session_backend_disable a b)
          w
          (backend_disable addr_size tmp addr backend_id w)
      × Asks keys_find
          (session_backend_make_writable a b)
          w
          (backend_make_writable addr_size tmp addr backend_id w)
      × Asks keys_find
          (session_backend_make_readonly a b)
          w
          (backend_make_read_only addr_size tmp addr backend_id w)
      × Asks keys_find
          (session_backend_set_delay a b delay)
          w
          (backend_set_delay addr_size tmp addr backend_id delay w)
unfolding backends_status backend_start_defrag backend_enable backend_disable backend_make_writable
    backend_make_read_only backend_set_delay
backend_requests-Asks keys_find addr_size tmp addr backend_id delay w lt =
    let a = c_addr addr_size addr tmp in
    let b = to_uint32 backend_id in
    let asks : (call : ℕ → Call) → Asks keys_find call w (ask_status call w) =
      λ call. ask_status-Asks keys_find call w lt in
    (
      asks (session_backends_status a),
      asks (session_backend_start_defrag a b),
      asks (session_backend_enable a b),
      asks (session_backend_disable a b),
      asks (session_backend_make_writable a b),
      asks (session_backend_make_readonly a b),
      asks (session_backend_set_delay a b delay),
    )
