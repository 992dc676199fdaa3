-- ===== src/Session/Ledger/Begins.antt =====
-- A request that the program makes, while fewer than 2^64 contexts are handed out.
use elliptics_go.Base.{
  ℕ, ◌+◌, ◌<◌, ◌≡◌, ◌∙◌, refl, sym, subst, List, Option, none, some, String, Bool, arith,
}
use elliptics_go.Base.Word.{add64, u64_mod, add64_exact}
use elliptics_go.Base.Dict.{insert, lookup-insert_self, lookup-insert_ne}
use elliptics_go.Base.Eq.{nat_eq}
use elliptics_go.Pool.{next_context}
use elliptics_go.Pool.Laws.{get-store}
use elliptics_go.Stat.Ring.Sort.{sort}
use elliptics_go.Session.World.{
  Handler, to_channel, Value, on_result, on_finish, on_write, on_write_finish, on_status, chunk,
  World, Call, make_chan, remember, new_context, issue,
}
use elliptics_go.Session.Requests.{register, open_request, new_keys}
use elliptics_go.Session.Writes.{register_write}
use elliptics_go.Session.Backends.{open_status, ask_status}
use elliptics_go.Session.Delivery.{keys_of}
use elliptics_go.Session.Ledger.{
  serving, writing, asking, begin_request, begin_bulk_request, begin_write_request,
}
use elliptics_go.Session.Ledger.Frame.{Within, Within-trans, remember-Within, issue-Within}
use elliptics_go.Session.Ledger.Turns.{HasKeys, Backed}
use elliptics_go.Session.Ledger.Fresh.{
  made, made-Within, made-IsOpen, stored_two, stored_three, Begun,
}

begin_request_lem :
    (h : Handler) (call : ℕ → ℕ → Call) (w : World)
    → w.pool.counter + 3 < u64_mod
    → let r = w.pool.counter + 1 in
      begin_request h call w
      ≡ issue (call r (r + 1)) (
          remember
            (r + 1)
            (on_finish h w.next_chan r (r + 1))
            (remember r (on_result h w.next_chan) (made (r + 1) w)))
unfolding begin_request open_request register make_chan new_context next_context
begin_request_lem h call w lt =
    let n = w.pool.counter in
    let one : add64 n 1 ≡ n + 1 = add64_exact n 1 (omega arith) in
    let two : add64 (n + 1) 1 ≡ n + 1 + 1 = add64_exact (n + 1) 1 (omega arith) in
    rw (one, two) refl

HasKeys-of :
    (ks : Option ℕ) (w w' : World)
    → w'.key_sets ≡ w.key_sets
    → w'.next_keys ≡ w.next_keys
    → HasKeys ks w
    → HasKeys ks w'
HasKeys-of none w w' same next has = tt
HasKeys-of (some k) w w' same next ((names, e), lt) = ((names, rw same e), omega arith)

-- One with the key set that it needs.
pub begin_request-Begun :
    (h : Handler) (call : ℕ → ℕ → Call) (w : World)
    → w.pool.counter + 3 < u64_mod
    → HasKeys (keys_of h) w
    → Begun (serving h (w.pool.counter + 1)) w (begin_request h call w)
unfolding remember issue make_chan
begin_request-Begun h call w lt has =
    let r = w.pool.counter + 1 in
    let w0 = made (r + 1) w in
    let x = on_result h w.next_chan in
    let y = on_finish h w.next_chan r (r + 1) in
    let w2 = issue (call r (r + 1)) (remember (r + 1) y (remember r x w0)) in
    let under_way : Backed w.next_chan (serving h r) w2 = record {
      closures = stored_two r x y x w0.pool;
      channel = made-IsOpen (r + 1) w;
      keys = HasKeys-of (keys_of h) w w2 refl refl has;
      upload = tt;
      known = (omega arith, omega arith);
    } in
    rw (begin_request_lem h call w lt) record {
      within =
          issue-Within
            (remember-Within
              (remember-Within (made-Within w (r + 1) (r + 2) (omega arith)) r x (omega arith)
                (omega arith))
              (r + 1) y (omega arith) (omega arith))
            (call r (r + 1));
      left = (under_way, refl, refl, refl);
    }

begin_write_request_lem :
    (bytes : List ℕ) (call : ℕ → ℕ → Call) (w : World)
    → w.pool.counter + 3 < u64_mod
    → let r = w.pool.counter + 1 in
      let sink = to_channel w.next_chan in
      begin_write_request bytes call w
      ≡ issue (call r (r + 1)) (
          remember (r + 2) (chunk bytes) (
            remember
              (r + 1)
              (on_write_finish sink r (r + 1) (r + 2))
              (remember r (on_write sink) (made (r + 2) w))))
unfolding begin_write_request register_write make_chan new_context next_context
begin_write_request_lem bytes call w lt =
    let n = w.pool.counter in
    let one : add64 n 1 ≡ n + 1 = add64_exact n 1 (omega arith) in
    let two : add64 (n + 1) 1 ≡ n + 1 + 1 = add64_exact (n + 1) 1 (omega arith) in
    let three : add64 (n + 1 + 1) 1 ≡ n + 1 + 2 =
      add64_exact (n + 1 + 1) 1 (omega arith) ∙ omega arith in
    rw (one, two, three) refl

-- The step that stores three closures and makes a call.
module _ {w v : World} {r : ℕ} (p : Within w.next_chan r (r + 3) none w v) where
  pub three_stored-Within :
      (x y z : Value) (c : Call)
      → Within w.next_chan r
          (r + 3)
          none
          w
          (issue c (remember (r + 2) z (remember (r + 1) y (remember r x v))))
  three_stored-Within x y z c =
      issue-Within
        (remember-Within
          (remember-Within (remember-Within p r x (omega arith) (omega arith)) (r + 1) y
            (omega arith) (omega arith))
          (r + 2) z (omega arith) (omega arith))
        c

pub begin_write_request-Begun :
    (bytes : List ℕ) (call : ℕ → ℕ → Call) (w : World)
    → w.pool.counter + 3 < u64_mod
    → Begun (writing (w.pool.counter + 1)) w (begin_write_request bytes call w)
unfolding remember issue make_chan
begin_write_request-Begun bytes call w lt =
    let r = w.pool.counter + 1 in
    let w0 = made (r + 2) w in
    let sink = to_channel w.next_chan in
    let x = on_write sink in
    let y = on_write_finish sink r (r + 1) (r + 2) in
    let z = chunk bytes in
    let (first, second, third) = stored_three r x y z w0.pool in
    let w3 = issue (call r (r + 1)) (remember (r + 2) z (remember (r + 1) y (remember r x w0))) in
    let under_way : Backed w.next_chan (writing r) w3 = record {
      closures = (first, second, (bytes, third));
      channel = made-IsOpen (r + 2) w;
      keys = tt;
      upload = tt;
      known = (omega arith, omega arith);
    } in
    rw (begin_write_request_lem bytes call w lt) record {
      within =
          three_stored-Within (made-Within w (r + 2) (r + 3) (omega arith)) x y z (call r (r + 1));
      left = (under_way, refl, refl, refl);
    }

pub ask_status-Begun :
    (call : ℕ → Call) (w : World)
    → w.pool.counter + 3 < u64_mod
    → Begun (asking (w.pool.counter + 1)) w (ask_status call w).0
unfolding ask_status open_status new_context next_context remember issue make_chan
ask_status-Begun call w lt =
    let r = w.pool.counter + 1 in
    let w0 = made r w in
    let x = on_status w.next_chan r in
    let w1 = issue (call r) (remember r x w0) in
    let one : add64 w.pool.counter 1 ≡ r = add64_exact w.pool.counter 1 (omega arith) in
    let under_way : Backed w.next_chan (asking r) w1 = record {
      closures = get-store r r x w0.pool ∙ ground arith;
      channel = made-IsOpen r w;
      keys = tt;
      upload = tt;
      known = (omega arith, omega arith);
    } in
    rw one record {
      within =
          issue-Within
            (remember-Within (made-Within w r (r + 1) (omega arith)) r x (omega arith)
              (omega arith))
            (call r);
      left = (under_way, refl, refl, refl);
    }

-- A request with a new key set.
pub begin_bulk-Begun :
    (string_less : String → String → Bool) (kind : ℕ → Handler) (keys : List String)
    (call : ℕ → ℕ → Call) (w : World)
    → w.pool.counter + 3 < u64_mod
    → keys_of (kind w.next_keys) ≡ some w.next_keys
    → (w' : World) × (begin_bulk_request string_less kind keys call w ≡ some w')
      × Begun (serving (kind w.next_keys) (w.pool.counter + 1)) w w'
unfolding begin_bulk_request new_keys
begin_bulk-Begun string_less kind keys call w lt holds =
    let k = w.next_keys in
    let names = sort string_less keys in
    let w1 : World = record w { key_sets = insert k names w.key_sets; next_keys = k + 1 } in
    let has : HasKeys (some k) w1 = ((names, lookup-insert_self k names w.key_sets), omega arith) in
    let t = begin_request-Begun (kind k) call w1 lt (subst (λ ks. HasKeys ks w1) (sym holds) has) in
    let fresh : Within w.next_chan (w.pool.counter + 1) (w.pool.counter + 1 + 2) (keys_of (kind k))
        w w1 =
      record {
        contexts = λ j b. refl;
        chans = λ c ne. refl;
        key_sets =
            λ j ne. lookup-insert_ne k j names w.key_sets (λ same. ne (holds ∙ rw same refl));
        uploads = λ c ne. refl;
        grows = (omega arith, omega arith, omega arith);
      } in
    (
      begin_request (kind k) call w1,
      refl,
      record { within = Within-trans fresh t.within; left = t.left },
    )
