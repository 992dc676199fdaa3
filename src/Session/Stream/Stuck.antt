-- ===== src/Session/Stream/Stuck.antt =====
-- elliptics/session.go, StreamHTTP where the servers answer with no data.
use elliptics_go.Base.{
  ℕ, zero, suc, ◌+◌, ◌-◌, ◌<◌, ◌≡◌, ◌≢◌, ◌∙◌, refl, ap, List, [], ◌∷◌, none, String, true, length,
  arith,
}
use elliptics_go.Base.Word.{u64_mod}
use elliptics_go.Errors.{ok}
use elliptics_go.Session.Results.{ReadResult}
use elliptics_go.Session.Requests.{new_key}
use elliptics_go.Session.Stream.{
  content_length, status_ok, body, chunk_size, nothing_read, first_good, known_size, told,
  stream_loop, stream_http,
}
use elliptics_go.Session.Stream.Rounds.{loop_more, answer_start}
use elliptics_go.Session.Stream.Served.{wanted, known_size_lem}

-- Each read has a good result with no bytes and with this size of the object.
abbrev pub GivesNothing : ℕ → (ℕ → ℕ → ℕ → List ReadResult) → Type 0
GivesNothing total reads =
    (k o n : ℕ)
    → (rd : ReadResult) × (first_good nothing_read (reads k o n) ≡ ok rd)
      × (rd.bytes ≡ [])
      × (rd.ioattr.total_size ≡ total)

wanted_some : (m rest : ℕ) → 0 < rest → wanted m rest ≢ 0
wanted_some m rest some_left = ground arith

wanted_le : (m rest : ℕ) → rest < u64_mod → wanted m rest < u64_mod
wanted_le m rest lt = ground arith

stream_loop_stuck :
    (total : ℕ) (reads : ℕ → ℕ → ℕ → List ReadResult) (offset size fuel k m : ℕ)
    → GivesNothing total reads
    → total < u64_mod
    → offset < total
    → stream_loop reads offset size fuel k (record { offset = offset; size = m }) ≡ none
unfolding stream_loop told
stream_loop_stuck total reads offset size zero k m gives short inside = refl
stream_loop_stuck total reads offset size (suc fuel) k m gives short inside =
    let rest = total - offset in
    let (rd, good, bytes, whole) = gives k offset (chunk_size m) in
    let known : known_size rd.ioattr.total_size (record { offset = offset; size = m })
        ≡ wanted m rest =
      rw whole (known_size_lem total offset m (omega arith) short) in
    let answered =
      answer_start rd offset m 0 (wanted m rest) (ap length bytes) known (omega arith)
        (wanted_le m rest (omega arith)) (omega arith) in
    let left : wanted m rest - 0 ≢ 0 = λ gone. wanted_some m rest (omega arith) (omega arith) in
    let here : offset + 0 ≡ offset = omega arith in
    let again : stream_loop reads offset size fuel (k + 1)
          (record { offset = offset + 0; size = wanted m rest - 0 })
        ≡ none =
      rw here (
        stream_loop_stuck total reads offset size fuel (k + 1) (wanted m rest - 0) gives short
          inside) in
    loop_more reads offset size fuel k (record { offset = offset; size = m })
      (record { offset = offset + 0; size = wanted m rest - 0 })
      (content_length (wanted m rest) ∷ status_ok ∷ body rd.bytes ∷ []) rd good answered left
    ∙ ap (told (content_length (wanted m rest) ∷ status_ok ∷ body rd.bytes ∷ [])) again

-- StreamHTTP from an offset inside an object of fewer than 2^64 bytes, where every read has a good
-- result with no bytes, goes on for ever: no number of rounds is enough.
pub stream_http_stuck :
    (total : ℕ) (reads : ℕ → ℕ → ℕ → List ReadResult) (fuel : ℕ) (key : String) (offset size : ℕ)
    → GivesNothing total reads
    → total < u64_mod
    → offset < total
    → stream_http true reads fuel key offset size ≡ none
unfolding stream_http new_key
stream_http_stuck total reads fuel key offset size gives short inside =
    stream_loop_stuck total reads offset size fuel 0 size gives short inside
