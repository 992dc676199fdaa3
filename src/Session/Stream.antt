-- ===== src/Session/Stream.antt =====
-- StreamHTTP of elliptics/session.go. `reads k offset size` is what the channel of its k-th ReadKey
-- carries. What http.ResponseWriter is told is a list; its own failures are not looked at. The loop
-- is on fuel: `none` is a loop that goes on.
pub mod Rounds
pub mod Served
pub mod Stuck
use elliptics_go.Base.{
  ℕ, zero, suc, ◌+◌, List, [], ◌∷◌, ◌++◌, Option, none, some, ◌>>=◌, String, Bool, true, false,
  if◌then◌else◌, eqb, ltb, ◌||◌, length,
}
use elliptics_go.Base.Int.{negsuc}
use elliptics_go.Base.Word.{add64, sub64}
use elliptics_go.Base.Text.{concat, show_ℕ}
use elliptics_go.Errors.{Error, dnet, error_status, error_string, Result, ok, err}
use elliptics_go.Session.Results.{ReadResult}
use elliptics_go.Session.Requests.{new_key}
use elliptics_go.Session.Uploads.{max_chunk_size}

-- What the response writer is told.
pub data Effect : Type 0 where
  content_length : ℕ → Effect
  status_ok : Effect
  body : List ℕ → Effect

-- The variables of the loop.
pub record Streaming : Type 0 where
  pub offset : ℕ
  pub size : ℕ

unfoldable pub chunk_size : ℕ → ℕ
chunk_size size = if ltb max_chunk_size size || eqb size 0 then max_chunk_size else size

unfoldable pub nothing_read : Error
nothing_read =
    dnet (record { code = negsuc 5; flags = 0; message = "could not read anything at all" })

-- The first result without an error, or else the last error.
unfoldable pub first_good : Error → List ReadResult → Result ReadResult
first_good e [] = err e
first_good e (rd ∷ rds) = elim rd.err [ none ↦ ok rd | some e' ↦ first_good e' rds ]

-- The size that is left, from the size of the whole object: all of it for 0 or for more than that.
unfoldable pub known_size : ℕ → Streaming → ℕ
known_size total_size s =
    let rest = sub64 total_size s.offset in if eqb s.size 0 || ltb rest s.size then rest else s.size

-- A good result, while the offset is `orig_offset` still.
unfoldable pub first_answer : ReadResult → Streaming → Streaming × List Effect
unfolding known_size
first_answer rd s =
    let size = known_size rd.ioattr.total_size s in
    (record s { size = size }, content_length size ∷ status_ok ∷ [])

-- A good result of a round.
unfoldable pub answer_round : ℕ → ReadResult → Streaming → Streaming × List Effect
unfolding first_answer
answer_round orig_offset rd s =
    let (s', head) = if eqb s.offset orig_offset then first_answer rd s else (s, []) in
    (
      record { offset = add64 s'.offset (length rd.bytes); size = sub64 s'.size (length rd.bytes) },
      head ++ body rd.bytes ∷ [],
    )

unfoldable pub stream_error : ℕ → ℕ → Streaming → Error → Error
unfolding chunk_size
stream_error orig_offset orig_size s e = dnet (record {
  code = error_status e;
  flags = 0;
  message = concat (
      "could not stream data: current-offset: "
      ∷ show_ℕ orig_offset
      ∷ "/"
      ∷ show_ℕ s.offset
      ∷ ", current-size: "
      ∷ show_ℕ (chunk_size s.size)
      ∷ ", rest-size: "
      ∷ show_ℕ orig_size
      ∷ "/"
      ∷ show_ℕ s.size
      ∷ ": "
      ∷ error_string e
      ∷ []);
})

-- What is told before the rest.
unfoldable pub told :
    List Effect → Option (Option Error × List Effect) → Option (Option Error × List Effect)
told out rest = do (e, more) ← rest; some (e, out ++ more)

module _ (reads : ℕ → ℕ → ℕ → List ReadResult) (orig_offset orig_size : ℕ) where
  -- The loop, from its k-th round on: the error that is returned, and what the writer was told.
  unfoldable pub stream_loop : ℕ → ℕ → Streaming → Option (Option Error × List Effect)
  stream_loop zero k s = none
  stream_loop (suc fuel) k s =
      elim (first_good nothing_read (reads k s.offset (chunk_size s.size))) [
        | err e ↦ some (some (stream_error orig_offset orig_size s e), [])
        | ok rd ↦ elim (eqb (answer_round orig_offset rd s).0.size 0) [
          | true ↦ some (none, (answer_round orig_offset rd s).1)
          | false ↦
              told (answer_round orig_offset rd s).1
                (stream_loop fuel (k + 1) (answer_round orig_offset rd s).0)
        ]
      ]

-- StreamHTTP
unfoldable pub stream_http :
    Bool → (ℕ → ℕ → ℕ → List ReadResult) → ℕ → String → ℕ → ℕ → Option (Option Error × List Effect)
stream_http allocated reads fuel key offset size = elim (new_key allocated key) [
  | err e ↦ some (some e, [])
  | ok ekey ↦ stream_loop reads offset size fuel 0 (record { offset = offset; size = size })
]
