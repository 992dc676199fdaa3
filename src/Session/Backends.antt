-- ===== src/Session/Backends.antt =====
-- elliptics/backend.go: requests about the backends of a server. Each has one closure, which the
-- one answer of C calls.
pub mod Answered
use elliptics_go.Base.{
  ℕ, ◌^◌, List, [], ◌∷◌, Option, none, some, ◌>>=◌, String, Bool, true, false, if◌then◌else◌, eqb,
  not, map,
}
use elliptics_go.Base.Int.{ℤ, pos, to_int32, pattern_of}
use elliptics_go.Wire.Address.{DnetAddr, CDnetAddr, c_addr}
use elliptics_go.Wire.Attributes.{CDnetTime}
use elliptics_go.Wire.Time.{unix}
use elliptics_go.Session.Results.{DnetBackendStatus, DnetBackendsStatus}
use elliptics_go.Session.World.{
  on_status, World, Call, session_backends_status, session_backend_start_defrag,
  session_backend_enable, session_backend_disable, session_backend_make_writable,
  session_backend_make_readonly, session_backend_set_delay, make_chan, remember, new_context, issue,
}
use elliptics_go.Session.Callback.{status_reply, CError, result_callback}
use elliptics_go.Session.Arrival.{reply_error}

-- struct dnet_backend_status
pub record CBackendStatus : Type 0 where
  pub backend_id : ℕ
  pub state : ℤ
  pub defrag_state : ℕ
  pub last_start : CDnetTime
  pub last_start_err : ℤ
  pub read_only : ℕ
  pub delay : ℕ

-- dnet_backend_status_from_list and the conversion of its result
unfoldable pub backend_status : CBackendStatus → DnetBackendStatus
backend_status st = record {
  backend = to_int32 (pos st.backend_id);
  state = st.state;
  defrag_state = to_int32 (pos st.defrag_state);
  last_start = unix st.last_start.tsec st.last_start.tnsec;
  last_start_err = st.last_start_err;
  ro = not (eqb st.read_only 0);
  delay = st.delay;
}

-- The request's channel and context, with its closure stored.
unfoldable pub open_status : World → World × ℕ × ℕ
open_status w =
    let (w1, ch) = make_chan w in
    let (w2, k) = new_context w1 in (remember k (on_status ch k) w2, ch, k)

unfoldable pub ask_status : (ℕ → Call) → World → World × ℕ
unfolding open_status
ask_status call w = let (w1, ch, k) = open_status w in (issue (call k) w1, ch)

-- C.uint32_t(backend_id)
abbrev pub to_uint32 : ℤ → ℕ
to_uint32 z = pattern_of (2 ^ 32) z

-- `addr_size` is DNET_ADDR_SIZE, and `tmp` what dnet_addr_alloc gives.
module _ (addr_size : ℕ) (tmp : CDnetAddr) (addr : DnetAddr) where
  unfoldable pub backends_status : World → World × ℕ
  unfolding ask_status
  backends_status w = ask_status (λ k. session_backends_status (c_addr addr_size addr tmp) k) w

  unfoldable pub backend_start_defrag : ℤ → World → World × ℕ
  unfolding ask_status
  backend_start_defrag backend_id w =
      ask_status
        (λ k. session_backend_start_defrag (c_addr addr_size addr tmp) (to_uint32 backend_id) k) w

  unfoldable pub backend_enable : ℤ → World → World × ℕ
  unfolding ask_status
  backend_enable backend_id w =
      ask_status (λ k. session_backend_enable (c_addr addr_size addr tmp) (to_uint32 backend_id) k)
        w

  unfoldable pub backend_disable : ℤ → World → World × ℕ
  unfolding ask_status
  backend_disable backend_id w =
      ask_status (λ k. session_backend_disable (c_addr addr_size addr tmp) (to_uint32 backend_id) k)
        w

  unfoldable pub backend_make_writable : ℤ → World → World × ℕ
  unfolding ask_status
  backend_make_writable backend_id w =
      ask_status
        (λ k. session_backend_make_writable (c_addr addr_size addr tmp) (to_uint32 backend_id) k) w

  unfoldable pub backend_make_read_only : ℤ → World → World × ℕ
  unfolding ask_status
  backend_make_read_only backend_id w =
      ask_status
        (λ k. session_backend_make_readonly (c_addr addr_size addr tmp) (to_uint32 backend_id) k) w

  unfoldable pub backend_set_delay : ℤ → ℕ → World → World × ℕ
  unfolding ask_status
  backend_set_delay backend_id delay w =
      ask_status
        (λ k. session_backend_set_delay (c_addr addr_size addr tmp) (to_uint32 backend_id) delay k)
        w

module _ (keys_find : List String → List ℕ → Option String) where
  -- The list is that of the C structure.
  unfoldable pub go_backend_status_callback : ℕ → List CBackendStatus → World → Option World
  unfolding backend_status
  go_backend_status_callback key list w =
      result_callback keys_find key
        (status_reply (record { backends = map backend_status list; error = none })) w

  unfoldable pub go_backend_status_error : ℕ → CError → World → Option World
  unfolding reply_error
  go_backend_status_error key cerr w =
      result_callback keys_find key
        (status_reply (record { backends = []; error = some (reply_error cerr) })) w
