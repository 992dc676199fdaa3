-- ===== src/Session/Delivery/Opening.antt =====
-- A request under way, and a chunked write or a status request that another one begins.
use elliptics_go.Base.{ℕ, ◌+◌, ◌<◌, ◌≡◌, List, some, String, arith}
use elliptics_go.Base.Eq.{nat_eq}
use elliptics_go.Base.Word.{u64_mod}
use elliptics_go.Session.Results.{Item}
use elliptics_go.Session.World.{Handler, on_status, Upload, World, new_context, make_chan}
use elliptics_go.Session.Requests.{Opened}
use elliptics_go.Session.Uploads.{write_chunk}
use elliptics_go.Session.Backends.{open_status}
use elliptics_go.Session.Delivery.{Live}
use elliptics_go.Session.Delivery.Frame.{remember-Live, new_context-Live, make_chan-Live}
use elliptics_go.Session.Delivery.Begin.{newer, topped}
use elliptics_go.Session.Delivery.Chunked.{first_read-Live}

module _ {o : Opened} {h : Handler} {ks : List String} {sent : List Item} {top : ℕ} where
  pub write_chunk-Live :
      (u : Upload) (w w' : World) (named : ℕ)
      → Live o h ks sent top w
      → top + 3 < u64_mod
      → write_chunk u w ≡ some (w', named)
      → Live o h ks sent (top + 3) w'
  unfolding write_chunk
  write_chunk-Live u w w' named live lt ran =
      let (l0, ne, same) = make_chan-Live live in
      let w1 = (make_chan w).0 in
      let (l1, e1, c1) = new_context-Live l0 (omega arith) in
      let w2 = (new_context w1).0 in
      let (l2, e2, c2) = new_context-Live l1 (omega (arith, c1)) in
      let w3 = (new_context w2).0 in
      let (l3, e3, c3) = new_context-Live l2 (omega (arith, c1, c2)) in
      let r_new = newer (new_context w1).1 w1 l0 (omega (arith, e1)) in
      let f_new = newer (new_context w2).1 w1 l0 (omega (arith, e2, c1)) in
      let c_new = newer (new_context w3).1 w1 l0 (omega (arith, e3, c2, c1)) in
      topped (omega arith) (
        first_read-Live (make_chan w).1 (new_context w1).1 (new_context w2).1 (new_context w3).1 ne
          r_new f_new c_new (u.reader u.reads) u (new_context w3).0 w' named l3 ran)

  pub open_status-Live :
      (w : World)
      → Live o h ks sent top w
      → top + 1 < u64_mod
      → Live o h ks sent (top + 1) (open_status w).0
  unfolding open_status
  open_status-Live w live lt =
      let (l0, ne, same) = make_chan-Live live in
      let w1 = (make_chan w).0 in
      let (l1, e1, c1) = new_context-Live l0 lt in
      let k_new = newer (new_context w1).1 w1 l0 (omega (arith, e1)) in
      remember-Live l1 (new_context w1).1 (on_status (make_chan w).1 (new_context w1).1) k_new
        (ne, k_new)
