-- ===== src/Session/Settings/Last.antt =====
-- Any sequence of settings of elliptics/session.go.
use elliptics_go.Base.{
  ℕ, zero, suc, ◌≡◌, ◌∙◌, refl, sym, ap, arith, List, [], ◌∷◌, ◌++◌, append_assoc, append-nil, some,
  All, length, ◌<◌,
}
use elliptics_go.Base.Int.{pos, negsuc, to_int32}
use elliptics_go.Session.Settings.{
  Told, session_set_groups, session_set_timeout, session_set_cflags, session_set_ioflags,
  session_set_trace_id, session_set_namespace, session_set_filter_all, session_set_filter_positive,
  Session, hear, set_groups, get_groups, set_filter, set_timeout, set_cflags, set_ioflags,
  set_trace_id, set_namespace, Setting, groups, filter, timeout, cflags, ioflags, trace_id,
  namespace, change, change_all,
}

-- What C should hear of a setting: nothing of an unknown filter.
abbrev pub heard : Setting → List Told
heard (groups gs) = session_set_groups gs ∷ []
heard (filter (pos zero)) = session_set_filter_all ∷ []
heard (filter (pos (suc zero))) = session_set_filter_positive ∷ []
heard (filter (pos (suc (suc n)))) = []
heard (filter (negsuc n)) = []
heard (timeout z) = session_set_timeout (to_int32 z) ∷ []
heard (cflags n) = session_set_cflags n ∷ []
heard (ioflags n) = session_set_ioflags n ∷ []
heard (trace_id n) = session_set_trace_id n ∷ []
heard (namespace t) = session_set_namespace t ∷ []

abbrev pub heard_all : List Setting → List Told
heard_all [] = []
heard_all (x ∷ xs) = heard x ++ heard_all xs

-- The groups of the last setting of groups.
abbrev pub last_groups : List ℕ → List Setting → List ℕ
last_groups gs [] = gs
last_groups gs (groups hs ∷ xs) = last_groups hs xs
last_groups gs (_ ∷ xs) = last_groups gs xs

-- A setting of groups names one at least.
abbrev pub IsSetting : Setting → Type 0
IsSetting (groups gs) = 0 < length gs
IsSetting _ = Unit {0}

change-heard :
    (x : Setting) (s : Session)
    → IsSetting x
    → (s' : Session) × (change x s ≡ some s')
      × (s'.groups ≡ last_groups s.groups (x ∷ []))
      × (s'.told ≡ s.told ++ heard x)
unfolding change set_groups set_filter set_timeout set_cflags set_ioflags set_trace_id set_namespace
    hear
change-heard (groups []) s is = let absurd : ⊥ = omega arith in elim absurd [ ]
change-heard (groups (g ∷ gs)) s is = (_, refl, refl, refl)
change-heard (filter (pos zero)) s is = (_, refl, refl, refl)
change-heard (filter (pos (suc zero))) s is = (_, refl, refl, refl)
change-heard (filter (pos (suc (suc n)))) s is = (_, refl, refl, sym (append-nil s.told))
change-heard (filter (negsuc n)) s is = (_, refl, refl, sym (append-nil s.told))
change-heard (timeout z) s is = (_, refl, refl, refl)
change-heard (cflags n) s is = (_, refl, refl, refl)
change-heard (ioflags n) s is = (_, refl, refl, refl)
change-heard (trace_id n) s is = (_, refl, refl, refl)
change-heard (namespace t) s is = (_, refl, refl, refl)

last_groups_next :
    (gs : List ℕ) (x : Setting) (xs : List Setting)
    → last_groups gs (x ∷ xs) ≡ last_groups (last_groups gs (x ∷ [])) xs
last_groups_next gs (groups hs) xs = refl
last_groups_next gs (filter z) xs = refl
last_groups_next gs (timeout z) xs = refl
last_groups_next gs (cflags n) xs = refl
last_groups_next gs (ioflags n) xs = refl
last_groups_next gs (trace_id n) xs = refl
last_groups_next gs (namespace t) xs = refl

-- Any sequence of settings in which no set of groups is empty does not panic: GetGroups then gives
-- the groups that were set last, or those from before, and C heard of every setting in order, except
-- of the filters that are neither SessionFilterAll nor SessionFilterPositive.
pub change_all-get_groups :
    (xs : List Setting) (s : Session)
    → All IsSetting xs
    → (s' : Session) × (change_all xs s ≡ some s')
      × (get_groups s' ≡ last_groups (get_groups s) xs)
      × (s'.told ≡ s.told ++ heard_all xs)
unfolding change_all get_groups
change_all-get_groups [] s are = (s, refl, refl, sym (append-nil s.told))
change_all-get_groups (x ∷ xs) s (is, are) =
    let (s1, first, groups1, told1) = change-heard x s is in
    let (s2, rest, groups2, told2) = change_all-get_groups xs s1 are in
    (
      s2,
      rw first rest,
      groups2 ∙ ap (λ gs. last_groups gs xs) groups1 ∙ sym (last_groups_next s.groups x xs),
      told2 ∙ ap (λ t. t ++ heard_all xs) told1 ∙ append_assoc s.told (heard x) (heard_all xs),
    )
