-- ===== src/Session/Stream/Served.antt =====
-- elliptics/session.go, StreamHTTP of an object that the servers hold.
use elliptics_go.Base.{
  ℕ, zero, suc, ◌+◌, ◌-◌, ◌*◌, ◌≤◌, ◌<◌, ◌≡◌, ◌≢◌, refl, sym, ap, ◌∙◌, List, [], ◌∷◌, ◌++◌, none,
  some, String, true, if◌then◌else◌, eqb, ltb, ◌||◌, length, take, drop, map, flatten, arith,
  length-drop, length-take, take_all, take_split, drop-drop, Bool-cases, inl, inr,
}
use elliptics_go.Base.Eq.{nat_eq}
use elliptics_go.Base.Word.{u64_mod, sub64_exact}
use elliptics_go.Errors.{ok}
use elliptics_go.Session.Results.{ReadResult}
use elliptics_go.Session.Uploads.{max_chunk_size}
use elliptics_go.Session.Stream.{
  content_length, status_ok, body, chunk_size, nothing_read, first_good, known_size, stream_loop,
  stream_http,
}
use elliptics_go.Session.Requests.{new_key}
use elliptics_go.Session.Stream.Rounds.{chunk_size_lem, loop_round, answer_next, answer_start}

-- Each read of a part of the object that is not empty has a good result with those bytes, as many
-- as were asked for and are there, and with the object's size.
abbrev pub Serves : List ℕ → (ℕ → ℕ → ℕ → List ReadResult) → Type 0
Serves content reads =
    (k o n : ℕ)
    → o < length content
    → (rd : ReadResult) × (first_good nothing_read (reads k o n) ≡ ok rd)
      × (rd.bytes ≡ take n (drop o content))
      × (rd.ioattr.total_size ≡ length content)

-- What is asked for: all that is left for 0 or for more than that.
abbrev pub wanted : ℕ → ℕ → ℕ
wanted size rest = if eqb size 0 || ltb rest size then rest else size

-- Some bytes of the object.
abbrev pub part : List ℕ → ℕ → ℕ → List ℕ
part content o n = take n (drop o content)

pub known_size_lem :
    (total o m : ℕ)
    → o ≤ total
    → total < u64_mod
    → known_size total (record { offset = o; size = m }) ≡ wanted m (total - o)
unfolding known_size
known_size_lem total o m le lt = rw (sub64_exact total o le lt) refl

abbrev least : ℕ → ℕ → ℕ
least a b = if ltb b a then b else a

take-least : (n : ℕ) (xs : List ℕ) → take n xs ≡ take (least n (length xs)) xs
take-least n xs = elim (Bool-cases (ltb (length xs) n)) [
  | inl less ↦
      let le : length xs ≤ n = ground arith in
      rw less (take_all n xs le ∙ sym (take_all (length xs) xs (omega arith)))
  | inr more ↦ rw more refl
]

part_split :
    (content : List ℕ) (o g n : ℕ)
    → g ≤ n
    → part content o g ++ part content (o + g) (n - g) ≡ part content o n
part_split content o g n le =
    rw (sym (drop-drop o g (o + g) content refl))
      (take_split g (n - g) n (drop o content) (omega arith))

length-part : (content : List ℕ) (o n : ℕ) → o + n ≤ length content → length (part content o n) ≡ n
length-part content o n le =
    let all = length-drop o content in length-take n (drop o content) (omega (arith, all))

start_chunk :
    (m rest : ℕ)
    → 0 < rest
    → let g = least (chunk_size m) rest in
      (g ≤ wanted m rest)
      × (0 < g)
      × (wanted m rest - g ≤ wanted m rest - max_chunk_size)
      × (wanted m rest ≤ rest)
unfolding chunk_size
start_chunk m rest pos = ground arith

module _ (content : List ℕ) (reads : ℕ → ℕ → ℕ → List ReadResult) (serves : Serves content reads)
    (short : length content < u64_mod) (orig_offset orig_size : ℕ) where
  stream_rest :
      (fuel k o m : ℕ)
      → orig_offset < o
      → m ≢ 0
      → o + m ≤ length content
      → m ≤ fuel * max_chunk_size
      → (chunks : List (List ℕ)) × (stream_loop reads orig_offset orig_size fuel k
            (record { offset = o; size = m })
          ≡ some (none, map body chunks))
        × (flatten chunks ≡ part content o m)
  stream_rest zero k o m past left le enough = elim (left (omega arith)) [ ]
  stream_rest (suc fuel) k o m past left le enough =
      let g = chunk_size m in
      let (g_le, g_pos, fewer) = chunk_size_lem m left in
      let (rd, good, bytes, total) = serves k o g (omega arith) in
      let long : length rd.bytes ≡ g = ap length bytes ∙ length-part content o g (omega arith) in
      let (chunks, looped, same) =
        loop_round reads orig_offset orig_size fuel k (record { offset = o; size = m })
          (record { offset = o + g; size = m - g }) [] rd (part content (o + g) (m - g)) good
          (answer_next orig_offset rd o m g long (λ back. omega arith) g_le (omega arith)
            (omega arith))
          (λ none_left. rw none_left refl)
          (λ more.
            stream_rest fuel (k + 1) (o + g) (m - g) (omega arith) more (omega arith)
              (omega arith)) in
      (chunks, looped, same ∙ rw bytes (part_split content o g m g_le))

  stream_start :
      (fuel : ℕ)
      → orig_offset < length content
      → let asked = wanted orig_size (length content - orig_offset) in
        asked ≤ suc fuel * max_chunk_size
        → (chunks : List (List ℕ)) × (stream_loop reads orig_offset orig_size
              (suc fuel)
              0
              (record { offset = orig_offset; size = orig_size })
            ≡ some (none, content_length asked ∷ status_ok ∷ map body chunks))
          × (flatten chunks ≡ part content orig_offset asked)
  stream_start fuel inside enough =
      let rest = length content - orig_offset in
      let asked = wanted orig_size rest in
      let g = least (chunk_size orig_size) rest in
      let (g_le, g_pos, fewer, asked_le) = start_chunk orig_size rest (omega arith) in
      let (rd, good, bytes, total) = serves 0 orig_offset (chunk_size orig_size) inside in
      let given : rd.bytes ≡ part content orig_offset g =
        bytes
        ∙ take-least (chunk_size orig_size) (drop orig_offset content)
        ∙ rw (length-drop orig_offset content) refl in
      let long : length rd.bytes ≡ g =
        ap length given ∙ length-part content orig_offset g (omega arith) in
      let known : known_size rd.ioattr.total_size
            (record { offset = orig_offset; size = orig_size })
          ≡ asked =
        rw total (known_size_lem (length content) orig_offset orig_size (omega arith) short) in
      let (chunks, looped, same) =
        loop_round reads orig_offset orig_size fuel 0
          (record { offset = orig_offset; size = orig_size })
          (record { offset = orig_offset + g; size = asked - g })
          (content_length asked ∷ status_ok ∷ []) rd (part content (orig_offset + g) (asked - g))
          good
          (answer_start rd orig_offset orig_size g asked long known g_le (omega arith)
            (omega arith))
          (λ none_left. rw none_left refl)
          (λ more.
            stream_rest fuel 1 (orig_offset + g) (asked - g) (omega arith) more (omega arith)
              (omega arith)) in
      (chunks, looped, same ∙ rw given (part_split content orig_offset g asked g_le))

-- StreamHTTP of an object of fewer than 2^64 bytes from an offset inside it, where each read gives
-- the part that it asks for, returns no error, after at most one round for each 10 MiB: the writer is
-- told one Content-Length, the status OK, and then exactly that many bytes, which are those of the
-- object from the offset on. They are all that are left for a size of 0 or of more than are left, and
-- else as many as the size says.
pub stream_http-Serves :
    (content : List ℕ) (reads : ℕ → ℕ → ℕ → List ReadResult) (fuel : ℕ) (key : String)
    (offset size : ℕ)
    → Serves content reads
    → length content < u64_mod
    → offset < length content
    → wanted size (length content - offset) ≤ suc fuel * max_chunk_size
    → let asked = wanted size (length content - offset) in
      (chunks : List (List ℕ)) × (stream_http true reads (suc fuel) key offset size
        ≡ some (none, content_length asked ∷ status_ok ∷ map body chunks))
      × (flatten chunks ≡ part content offset asked)
      × (length (flatten chunks) ≡ asked)
unfolding stream_http new_key
stream_http-Serves content reads fuel key offset size serves short inside enough =
    let (_, _, _, le) = start_chunk size (length content - offset) (omega arith) in
    let (chunks, looped, same) =
      stream_start content reads serves short offset size fuel inside enough in
    (
      chunks,
      looped,
      same,
      ap length same
          ∙ length-part content offset (wanted size (length content - offset)) (omega arith),
    )
