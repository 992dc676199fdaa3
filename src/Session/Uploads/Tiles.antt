-- ===== src/Session/Uploads/Tiles.antt =====
-- A chunked write from its start to its end: the ranges that it writes.
use elliptics_go.Base.{
  ℕ, suc, zero, ◌+◌, ◌-◌, ◌≤◌, ◌<◌, ◌≡◌, subst, ◌≢◌, refl, sym, List, [], ◌∷◌, ◌++◌, append_assoc,
  append-nil, Option, none, some, ◌>>=◌, String, true, false, arith, ◌∙◌, length, All, ap,
}
use elliptics_go.Base.Dict.{lookup, insert, lookup-insert_self}
use elliptics_go.Base.Eq.{nat_eq, eq_of_ne}
use elliptics_go.Base.Word.{u64_mod, add64_exact, sub64_exact}
use elliptics_go.Errors.{Error}
use elliptics_go.Pool.{get}
use elliptics_go.Session.World.{
  Upload, on_chunk_finish, World, Channel, Call, session_write_plain, session_write_commit, close,
  forget, issue, set_upload,
}
use elliptics_go.Session.Chunks.{took, chunk_call, chunk_end, write_taken, take_read, chunk_finish}
use elliptics_go.Session.Callback.{final_callback, call_final}
use elliptics_go.Session.Requests.Written.{Written, forget_all}

-- The variables of a chunked write at an offset, with `t` bytes left.
abbrev pub at : Upload → ℕ → ℕ → ℕ → Upload
at u k o t = record u { reads = k; offset = o; total_size = t }

-- The input gives these chunks, from its k-th Read on.
abbrev pub Gives : (ℕ → List ℕ × Option Error) → ℕ → List (List ℕ) → Type 0
Gives reader k [] = Unit {0}
Gives reader k (c ∷ cs) = (reader k).0 ≡ c × Gives reader (k + 1) cs

abbrev pub IsChunk : List ℕ → Type 0
IsChunk c = 0 < length c

abbrev pub size_of : List (List ℕ) → ℕ
size_of [] = 0
size_of (c ∷ cs) = length c + size_of cs

-- The writes of the chunks after the first, from an offset on: the last one commits.
unfoldable pub rest_calls : ℕ → ℕ → String → ℕ → List (List ℕ) → List Call
rest_calls r f key begin [] = []
rest_calls r f key begin (c ∷ []) = session_write_commit r f key begin (begin + length c) c ∷ []
rest_calls r f key begin (c ∷ d ∷ cs) =
    session_write_plain r f key begin c ∷ rest_calls r f key (begin + length c) (d ∷ cs)

-- The C library acknowledges a number of writes, without an error.
unfoldable pub acknowledge : ℕ → ℕ → World → Option World
acknowledge zero f w = some w
acknowledge (suc n) f w = do w' ← final_callback f none w; acknowledge n f w'

took_exact :
    (c : List ℕ) (u : Upload) (k o t : ℕ)
    → length c ≤ t
    → t < u64_mod
    → o + length c < u64_mod
    → took c (at u k o t) ≡ at u (k + 1) (o + length c) (t - length c)
unfolding took
took_exact c u k o t le lt fits =
    simp (add64_exact o (length c) fits, sub64_exact t (length c) le lt)

pub none_short : (bytes : List ℕ) → [] ≡ bytes → ¬ IsChunk bytes
none_short bytes given full = let none_left : 0 ≡ length bytes = ap length given in omega arith

-- A chunked write under way.
pub record Uploading (ch r f c : ℕ) (u : Upload) (calls : List Call) (w : World) : Type 0 where
  pub finisher : get f w.pool ≡ some (on_chunk_finish ch r f c)
  pub channel : lookup ch w.chans ≡ some (record { sent = []; closed = false })
  pub variables : lookup ch w.uploads ≡ some u
  pub called : w.calls ≡ calls

take_read_full :
    (ch r f c : ℕ) (got : List ℕ × Option Error) (bytes : List ℕ) (u : Upload) (w : World)
    → got.0 ≡ bytes
    → IsChunk bytes
    → take_read ch r f c got u w ≡ write_taken ch r f c bytes u w
unfolding take_read
take_read_full ch r f c ([], e) bytes u w given full = elim (none_short bytes given full) [ ]
take_read_full ch r f c (x ∷ xs, e) bytes u w given full = simp (sym given)

module _ (ch r f c : ℕ) where
  -- One acknowledgement, with a chunk to write.
  pub acknowledge_chunk :
      (u : Upload) (bytes : List ℕ) (calls : List Call) (w : World)
      → Uploading ch r f c u calls w
      → u.total_size ≢ 0
      → (u.reader u.reads).0 ≡ bytes
      → IsChunk bytes
      → u.allocates u.reads ≡ true
      → (w' : World) × (final_callback f none w ≡ some w')
        × Uploading ch r f c (took bytes u) (calls ++ chunk_call r f bytes (took bytes u) ∷ []) w'
  unfolding final_callback call_final chunk_finish write_taken issue set_upload
  acknowledge_chunk u bytes calls w up left given full made =
      let u' = took bytes u in
      (
        issue (chunk_call r f bytes u') (set_upload ch u' w),
        simp (
          up.finisher,
          up.variables,
          eq_of_ne u.total_size 0 left,
          take_read_full ch r f c (u.reader u.reads) bytes u w given full,
          made,
        ),
        record {
          finisher = up.finisher;
          channel = up.channel;
          variables = lookup-insert_self ch u' w.uploads;
          called = ap (λ cs. cs ++ chunk_call r f bytes u' ∷ []) up.called;
        },
      )

  acknowledge_last :
      (u : Upload) (calls : List Call) (w : World)
      → Uploading ch r f c u calls w
      → u.total_size ≡ 0
      → (w' : World) × (final_callback f none w ≡ some w')
        × Written ch r f c [] w'
        × (w'.calls ≡ calls)
  unfolding final_callback call_final chunk_finish chunk_end close forget
  acknowledge_last u calls w up done =
      let shut : Channel = record { sent = []; closed = true } in
      let ended : World = record w { chans = insert ch shut w.chans } in
      let (no_r, no_f, no_c) = forget_all r f c w.pool in
      (
        forget c (forget f (forget r ended)),
        simp (up.finisher, up.variables, done, up.channel),
        (lookup-insert_self ch shut w.chans, no_r, no_f, no_c),
        up.called,
      )

pub plus_minus : (m n : ℕ) → (m + n) - n ≡ m
plus_minus m n = omega arith

pub more_left : (c : List ℕ) (cs : List (List ℕ)) → IsChunk c → size_of (c ∷ cs) ≢ 0
more_left c cs full none_left = omega arith

pub took_next :
    (u : Upload) (k o : ℕ) (c : List ℕ) (cs : List (List ℕ))
    → o + size_of (c ∷ cs) < u64_mod
    → took c (at u k o (size_of (c ∷ cs))) ≡ at u (k + 1) (o + length c) (size_of cs)
took_next u k o c cs fits =
    let rest : size_of (c ∷ cs) - length c ≡ size_of cs = omega arith in
    took_exact c u k o (size_of (c ∷ cs)) (omega arith) (omega arith) (omega arith) ∙ rw rest refl

-- The write of a chunk after the first.
called_next :
    (r f : ℕ) (u : Upload) (k o : ℕ) (c : List ℕ) (cs : List (List ℕ))
    → All IsChunk (c ∷ cs)
    → o + length c < u64_mod
    → chunk_call r f c (at u k (o + length c) (size_of cs)) ∷ rest_calls r f u.key (o + length c) cs
      ≡ rest_calls r f u.key o (c ∷ cs)
unfolding chunk_call rest_calls
called_next r f u k o c [] full fits =
    simp (sub64_exact (o + length c) (length c) (omega arith) fits, plus_minus o (length c))
called_next r f u k o c (d ∷ cs) (_, (full, _)) fits =
    let more : size_of (d ∷ cs) ≢ 0 = more_left d cs full in
    simp (
      sub64_exact (o + length c) (length c) (omega arith) fits,
      plus_minus o (length c),
      eq_of_ne (length d + size_of cs) 0 more,
    )

module _ (ch r f b : ℕ) (u : Upload) (made : (k : ℕ) → u.allocates k ≡ true) where
  -- The acknowledgements of a chunked write under way, one for each chunk left and one more.
  pub acknowledge_each :
      (k o : ℕ) (cs : List (List ℕ)) (calls : List Call) (w : World)
      → Uploading ch r f b (at u k o (size_of cs)) calls w
      → All IsChunk cs
      → Gives u.reader k cs
      → o + size_of cs < u64_mod
      → (w' : World) × (acknowledge (suc (length cs)) f w ≡ some w')
        × Written ch r f b [] w'
        × (w'.calls ≡ calls ++ rest_calls r f u.key o cs)
  unfolding acknowledge rest_calls
  acknowledge_each k o [] calls w up full given fits =
      let (w', ended, written, called) = acknowledge_last ch r f b (at u k o 0) calls w up refl in
      (w', rw ended refl, written, called ∙ sym (append-nil calls))
  acknowledge_each k o (c ∷ cs) calls w up (one, full) (given, rest) fits =
      let u0 = at u k o (size_of (c ∷ cs)) in
      let u1 = at u (k + 1) (o + length c) (size_of cs) in
      let next = took_next u k o c cs fits in
      let (w1, first, up1) =
        acknowledge_chunk ch r f b u0 c calls w up (more_left c cs one) given one (made k) in
      let under_way : Uploading ch r f b u1 (calls ++ chunk_call r f c u1 ∷ []) w1 =
        subst (λ v. Uploading ch r f b v (calls ++ chunk_call r f c v ∷ []) w1) next up1 in
      let (w2, ended, written, called) =
        acknowledge_each (k + 1) (o + length c) cs (calls ++ chunk_call r f c u1 ∷ []) w1 under_way
          full rest (omega arith) in
      (
        w2,
        rw first ended,
        written,
        called
            ∙ append_assoc calls (chunk_call r f c u1 ∷ []) (rest_calls r f u.key (o + length c) cs)
            ∙ ap (λ more. calls ++ more)
                (called_next r f u (k + 1) o c cs (one, full) (omega arith)),
      )
