-- ===== src/Session/Delivery/Shrinks/Chunks.antt =====
-- What the closures of a chunked write and of a status request leave of a world.
use elliptics_go.Base.{
  [], ◌∷◌, Bool-cases, inl, inr, eqb, ℕ, ◌≡◌, refl, List, Option, none, some, >>=-eq-some,
}
use elliptics_go.Base.Eq.{nat_eq}
use elliptics_go.Errors.{Error}
use elliptics_go.Session.World.{World, send, close, forget}
use elliptics_go.Session.World.{Upload, set_upload, issue}
use elliptics_go.Session.Chunks.{
  chunk_result, chunk_end, chunk_fail, took, chunk_call, write_taken, take_read, chunk_finish,
}
use elliptics_go.Session.Callback.{status_result}
use elliptics_go.Session.Results.{
  LookupResult, lookup_item, lookup_error, DnetBackendsStatus, status_item,
}
use elliptics_go.Session.Delivery.Shrinks.{
  Shrinks, same-Shrinks, chain-Shrinks, send-Shrinks, close-Shrinks, forget-Shrinks,
}
use elliptics_go.Errors.{text}
use elliptics_go.Base.Dict.{lookup}

pub chunk_result-Shrinks :
    (ch : ℕ) (r : LookupResult) (w w' : World) → chunk_result ch r w ≡ some w' → Shrinks w w'
unfolding chunk_result
chunk_result-Shrinks ch r w w' went =
    let (u, _, rest) = >>=-eq-some (lookup ch w.uploads) _ went in
    elim (Bool-cases (eqb u.total_size 0)) [
      | inl last ↦ send-Shrinks ch (lookup_item r) w w' (rw last at rest)
      | inr more ↦ same-Shrinks w w' (rw more at rest)
    ]

pub status_result-Shrinks :
    (ch k : ℕ) (r : DnetBackendsStatus) (w w' : World)
    → status_result ch k r w ≡ some w'
    → Shrinks w w'
unfolding status_result
status_result-Shrinks ch k r w w' went =
    let (told, e1, rest) = >>=-eq-some (send ch (status_item r) w) _ went in
    let (ended, e2, last) = >>=-eq-some (close ch told) _ rest in
    chain-Shrinks w told w' (send-Shrinks ch (status_item r) w told e1) (
      chain-Shrinks told ended w' (close-Shrinks ch told ended e2)
        (chain-Shrinks ended (forget k ended) w' (forget-Shrinks k ended) (same-Shrinks _ w' last)))

module _ (ch r f c : ℕ) where
  chunk_end-Shrinks : (w w' : World) → chunk_end ch r f c w ≡ some w' → Shrinks w w'
  unfolding chunk_end
  chunk_end-Shrinks w w' went =
      let (ended, e1, last) = >>=-eq-some (close ch w) _ went in
      let w1 = forget r ended in
      let w2 = forget f w1 in
      chain-Shrinks w ended w' (close-Shrinks ch w ended e1) (
        chain-Shrinks ended w1 w' (forget-Shrinks r ended) (
          chain-Shrinks w1 w2 w' (forget-Shrinks f w1)
            (chain-Shrinks w2 (forget c w2) w' (forget-Shrinks c w2) (same-Shrinks _ w' last))))

  chunk_fail-Shrinks : (e : Error) (w w' : World) → chunk_fail ch r f c e w ≡ some w' → Shrinks w w'
  unfolding chunk_fail
  chunk_fail-Shrinks e w w' went =
      let (told, e1, rest) = >>=-eq-some (send ch (lookup_item (lookup_error e)) w) _ went in
      chain-Shrinks w told w' (send-Shrinks ch _ w told e1) (chunk_end-Shrinks told w' rest)

  write_taken-Shrinks :
      (bytes : List ℕ) (u : Upload) (w w' : World)
      → write_taken ch r f c bytes u w ≡ some w'
      → Shrinks w w'
  unfolding write_taken issue set_upload
  write_taken-Shrinks bytes u w w' went = elim (Bool-cases (u.allocates u.reads)) [
    | inl made ↦
        let kept : World =
          issue (chunk_call r f bytes (took bytes u)) (set_upload ch (took bytes u) w) in
        chain-Shrinks w kept w' (refl, refl, λ k v h. h) (same-Shrinks kept w' (rw made at went))
    | inr refused ↦
        chain-Shrinks w (set_upload ch (took bytes u) w) w' (refl, refl, λ k v h. h)
          (chunk_fail-Shrinks (text "could not create new key") _ w' (rw refused at went))
  ]

  take_read-Shrinks :
      (got : List ℕ × Option Error) (u : Upload) (w w' : World)
      → take_read ch r f c got u w ≡ some w'
      → Shrinks w w'
  unfolding take_read
  take_read-Shrinks ([], some e) u w w' went = chunk_fail-Shrinks e w w' went
  take_read-Shrinks ([], none) u w w' went = write_taken-Shrinks [] u w w' went
  take_read-Shrinks (b ∷ bs, e) u w w' went = write_taken-Shrinks (b ∷ bs) u w w' went

  pub chunk_finish-Shrinks :
      (e : Option Error) (w w' : World) → chunk_finish ch r f c e w ≡ some w' → Shrinks w w'
  unfolding chunk_finish
  chunk_finish-Shrinks (some e) w w' went = chunk_fail-Shrinks e w w' went
  chunk_finish-Shrinks none w w' went =
      let (u, _, rest) = >>=-eq-some (lookup ch w.uploads) _ went in
      elim (Bool-cases (eqb u.total_size 0)) [
        | inl done ↦ chunk_end-Shrinks w w' (rw done at rest)
        | inr more ↦ take_read-Shrinks (u.reader u.reads) u w w' (rw more at rest)
      ]
