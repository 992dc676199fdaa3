-- ===== src/Session/Stream/Rounds.antt =====
-- The rounds of StreamHTTP in elliptics/session.go.
use elliptics_go.Base.{
  ℕ, suc, ◌+◌, ◌-◌, ◌≤◌, ◌<◌, ◌≡◌, ◌≢◌, sym, ap, ◌∙◌, List, [], ◌∷◌, ◌++◌, append_assoc, none, some,
  eqb, length, map, flatten, arith, Bool-cases, inl, inr,
}
use elliptics_go.Base.Eq.{nat_eq, eq_refl, eq_of_ne}
use elliptics_go.Base.Word.{u64_mod, add64_exact, sub64_exact}
use elliptics_go.Errors.{ok}
use elliptics_go.Session.Results.{ReadResult}
use elliptics_go.Session.Uploads.{max_chunk_size}
use elliptics_go.Session.Stream.{
  Effect, content_length, status_ok, body, Streaming, chunk_size, nothing_read, first_good,
  known_size, first_answer, answer_round, told, stream_loop,
}

pub chunk_size_lem :
    (m : ℕ)
    → m ≢ 0
    → (chunk_size m ≤ m) × (0 < chunk_size m) × (m - chunk_size m ≤ m - max_chunk_size)
unfolding chunk_size
chunk_size_lem m left = ground arith

module _ (reads : ℕ → ℕ → ℕ → List ReadResult) (orig_offset orig_size : ℕ) where
  loop_done :
      (fuel k : ℕ) (s s' : Streaming) (out : List Effect) (rd : ReadResult)
      → first_good nothing_read (reads k s.offset (chunk_size s.size)) ≡ ok rd
      → (◌≡◌ {A = Streaming × List Effect} (answer_round orig_offset rd s) (s', out))
      → s'.size ≡ 0
      → stream_loop reads orig_offset orig_size (suc fuel) k s ≡ some (none, out)
  unfolding stream_loop
  loop_done fuel k s s' out rd good answered done = simp (stream_loop, good, answered, done)

  pub loop_more :
      (fuel k : ℕ) (s s' : Streaming) (out : List Effect) (rd : ReadResult)
      → first_good nothing_read (reads k s.offset (chunk_size s.size)) ≡ ok rd
      → (◌≡◌ {A = Streaming × List Effect} (answer_round orig_offset rd s) (s', out))
      → s'.size ≢ 0
      → stream_loop reads orig_offset orig_size (suc fuel) k s
        ≡ told out (stream_loop reads orig_offset orig_size fuel (k + 1) s')
  unfolding stream_loop
  loop_more fuel k s s' out rd good answered left =
      simp (stream_loop, good, answered, eq_of_ne s'.size 0 left)

  -- A round whose rest is known.
  pub loop_round :
      (fuel k : ℕ) (s s' : Streaming) (head : List Effect) (rd : ReadResult) (after : List ℕ)
      → first_good nothing_read (reads k s.offset (chunk_size s.size)) ≡ ok rd
      → (◌≡◌ {A = Streaming × List Effect}
          (answer_round orig_offset rd s)
          (s', head ++ body rd.bytes ∷ []))
      → (s'.size ≡ 0 → after ≡ [])
      → (s'.size ≢ 0
          → (chunks : List (List ℕ)) × (stream_loop reads orig_offset orig_size fuel (k + 1) s'
              ≡ some (none, map body chunks))
            × (flatten chunks ≡ after))
      → (chunks : List (List ℕ)) × (stream_loop reads orig_offset orig_size (suc fuel) k s
          ≡ some (none, head ++ map body chunks))
        × (flatten chunks ≡ rd.bytes ++ after)
  unfolding told
  loop_round fuel k s s' head rd after good answered ends goes = elim (Bool-cases (eqb s'.size 0)) [
    | inl done ↦
        let all_read : s'.size ≡ 0 = ground arith in
        (
          rd.bytes ∷ [],
          loop_done fuel k s s' (head ++ body rd.bytes ∷ []) rd good answered all_read,
          ap (λ r. rd.bytes ++ r) (sym (ends all_read)),
        )
    | inr more ↦
        let left : s'.size ≢ 0 = ground arith in
        let (chunks, rest, same) = goes left in
        (
          rd.bytes ∷ chunks,
          loop_more fuel k s s' (head ++ body rd.bytes ∷ []) rd good answered left
              ∙ rw rest (
                  ap (λ out. some (none, out))
                    (append_assoc head (body rd.bytes ∷ []) (map body chunks))),
          ap (λ r. rd.bytes ++ r) same,
        )
  ]

pub answer_next :
    (orig_offset : ℕ) (rd : ReadResult) (o m g : ℕ)
    → length rd.bytes ≡ g
    → o ≢ orig_offset
    → g ≤ m
    → m < u64_mod
    → o + g < u64_mod
    → (◌≡◌ {A = Streaming × List Effect}
        (answer_round orig_offset rd (record { offset = o; size = m }))
        (record { offset = o + g; size = m - g }, body rd.bytes ∷ []))
unfolding answer_round
answer_next orig_offset rd o m g long moved le lt fits =
    simp (eq_of_ne o orig_offset moved, long, add64_exact o g fits, sub64_exact m g le lt)

pub answer_start :
    (rd : ReadResult) (o m g wanted : ℕ)
    → length rd.bytes ≡ g
    → known_size rd.ioattr.total_size (record { offset = o; size = m }) ≡ wanted
    → g ≤ wanted
    → wanted < u64_mod
    → o + g < u64_mod
    → (◌≡◌ {A = Streaming × List Effect} (answer_round o rd (record { offset = o; size = m })) (
      record { offset = o + g; size = wanted - g },
      content_length wanted ∷ status_ok ∷ body rd.bytes ∷ [],
    ))
unfolding answer_round first_answer
answer_start rd o m g wanted long known le lt fits =
    simp (eq_refl o, long, known, add64_exact o g fits, sub64_exact wanted g le lt)
