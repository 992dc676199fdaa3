-- ===== src/Node/Remotes.antt =====
-- AddRemotes of elliptics/node.go.
use elliptics_go.Base.{
  ℕ, ◌+◌, ◌≡◌, ◌∙◌, refl, sym, ap, subst, arith, List, [], ◌∷◌, ◌++◌, append_assoc, Option, none,
  some, String, length, length-append, replicate, map,
}
use elliptics_go.Base.Int.{ℤ}
use elliptics_go.Node.{
  no_remotes, remote_error, make_char_array, set_array_string, fill_args, add_remotes,
}

set_array_string_next :
    (front : List (Option String)) (x : Option String) (rest : List (Option String)) (s : String)
    → set_array_string (front ++ x ∷ rest) s (length front) ≡ some (front ++ some s ∷ rest)
unfolding set_array_string
set_array_string_next [] x rest s = refl
set_array_string_next (y ∷ front) x rest s = rw (set_array_string_next front x rest s) refl

fill_args_all :
    (front : List (Option String)) (i : ℕ) (addrs : List String)
    → length front ≡ i
    → fill_args i addrs (front ++ replicate (length addrs) none)
      ≡ some (front ++ map (λ s. some s) addrs)
unfolding fill_args
fill_args_all front i [] at_i = refl
fill_args_all front i (s ∷ addrs) at_i =
    let one_more : length (front ++ some s ∷ []) ≡ i + 1 =
      omega (arith, length-append front (some s ∷ [])) in
    let placed : set_array_string (front ++ none ∷ replicate (length addrs) none) s i
        ≡ some (front ++ some s ∷ replicate (length addrs) none) =
      subst
        (λ k.
          set_array_string (front ++ none ∷ replicate (length addrs) none) s k
          ≡ some (front ++ some s ∷ replicate (length addrs) none))
        at_i (set_array_string_next front none (replicate (length addrs) none) s) in
    rw (placed, sym (append_assoc front (some s ∷ []) (replicate (length addrs) none)))
      (fill_args_all (front ++ some s ∷ []) (i + 1) addrs one_more
        ∙ ap (λ l. some l) (append_assoc front (some s ∷ []) (map (λ t. some t) addrs)))

-- AddRemotes never writes past its array. An empty list is an error and calls nothing. Else C is
-- called once, with every address at its own place and their number, and its answer alone decides
-- the error.
pub add_remotes_outcomes :
    (add_array : List (Option String) → ℕ → ℤ) (a : String) (addrs : List String)
    → (add_remotes add_array [] ≡ some (some (no_remotes "list of remotes is empty"), []))
      × (add_remotes add_array (a ∷ addrs)
          ≡ some (
            remote_error (add_array (map (λ s. some s) (a ∷ addrs)) (length (a ∷ addrs))),
            map (λ s. some s) (a ∷ addrs) ∷ [],
          ))
unfolding add_remotes make_char_array
add_remotes_outcomes add_array a addrs = (refl, rw (fill_args_all [] 0 (a ∷ addrs) refl) refl)
