-- ===== src/Stat/Entry/Laws.antt =====
-- AddStatEntry, place by place: what a reply makes of each backend's statistics.
use elliptics_go.Base.{
  ℕ, ◌≤◌, ◌≡◌, refl, List, [], ◌∷◌, Option, none, some, Bool, true, false, ◌&&◌, String,
  if◌then◌else◌, arith, length, Bool-cases, inl, inr, ap, ◌∙◌,
}
use elliptics_go.Base.Int.{ℤ, eqb_ℤ, to_int32, to_int64, pos}
use elliptics_go.Base.Word.{mul64}
use elliptics_go.Base.Dict.{Dict}
use elliptics_go.Base.Eq.{string_eq, ◌==◌}
use elliptics_go.Base.Float.{Floats}
use elliptics_go.Json.{Response, VNode}
use elliptics_go.Wire.Address.{DnetAddr}
use elliptics_go.Wire.Time.{unix}
use elliptics_go.Stat.Types.{AddressBackend, StatBackend, DnetStat}
use elliptics_go.Stat.Address.{new_address_backend}
use elliptics_go.Stat.Find.{backend_at, write_backend}
use elliptics_go.Stat.Find.Laws.{
  same_place, at_or_new, find_backend_total, backend_at-find_backend, backend_at-write_backend,
  same_place_refl, same_place-backend_at, time-write_backend,
}
use elliptics_go.Stat.Entry.{
  StatEntry, backend_state_enabled, updated, add_vnode, add_vnodes, add_stat_entry,
}

-- Whether a part of the reply is about the backend at a place.
unfoldable pub reports : DnetAddr → ℕ → AddressBackend → VNode → Bool
reports addr g a v =
    eqb_ℤ v.status.state backend_state_enabled
    && (elim (new_address_backend addr (to_int32 v.backend_id)) [
      | none ↦ false
      | some ab ↦ same_place v.backend.config.group ab g a
    ])

module _ {F : Type 0} ⦃fl : Floats F⦄ (now : ℤ) (addr : DnetAddr) where
  -- What one part of a reply makes of a place.
  abbrev pub reported : ℕ → AddressBackend → VNode → Option (StatBackend F) → Option (StatBackend F)
  reported g a v b = if reports addr g a v then some (updated v (at_or_new now b)) else b

  unfoldable pub reported_all :
      ℕ → AddressBackend → Dict String VNode → Option (StatBackend F) → Option (StatBackend F)
  reported_all g a [] b = b
  reported_all g a ((_, v) ∷ vs) b = reported_all g a vs (reported g a v b)

  abbrev Reaches :
      (ℕ → AddressBackend → Option (StatBackend F) → Option (StatBackend F))
      → DnetStat F
      → Option (DnetStat F)
      → Type 0
  Reaches f stat r =
      (stat' : DnetStat F) × (r ≡ some stat')
      × (stat'.time ≡ stat.time)
      × ((g : ℕ) (a : AddressBackend) → backend_at g a stat' ≡ f g a (backend_at g a stat))

  -- The enabled case: the backend is found or made, and written.
  add_enabled-Reaches :
      length addr.addr ≤ 32
      → (v : VNode) (stat : DnetStat F) → eqb_ℤ v.status.state backend_state_enabled ≡ true
      → Reaches (λ g a b. reported g a v b) stat (add_vnode now addr v stat)
  unfolding add_vnode reports
  add_enabled-Reaches h v stat on =
      let group = v.backend.config.group in
      let id = to_int32 v.backend_id in
      let (ab, found, key, call, kept) = find_backend_total now group addr id stat h in
      let b = at_or_new now (backend_at group ab stat) in
      let here : backend_at group ab found ≡ some b =
        rw (backend_at-find_backend now group addr id stat found ab call group ab)
          (rw (same_place_refl group ab) refl) in
      (
        write_backend group ab (updated v b) found,
        rw (on, call, here) refl,
        time-write_backend group ab (updated v b) found ∙ kept,
        λ g a.
            rw (on, key)
              (ground (
                arith,
                backend_at-write_backend group ab (updated v b) found (λ e. cc) g a,
                backend_at-find_backend now group addr id stat found ab call g a,
                same_place-backend_at group ab g a stat,
              )),
      )

  add_vnode-Reaches :
      length addr.addr ≤ 32
      → (v : VNode) (stat : DnetStat F)
      → Reaches (λ g a b. reported g a v b) stat (add_vnode now addr v stat)
  unfolding add_vnode reports
  add_vnode-Reaches h v stat = elim (Bool-cases (eqb_ℤ v.status.state backend_state_enabled)) [
    | inl on ↦ add_enabled-Reaches h v stat on
    | inr off ↦ (stat, rw off refl, refl, λ g a. rw off refl)
  ]

  add_vnodes-Reaches :
      length addr.addr ≤ 32
      → (vs : Dict String VNode) (stat : DnetStat F)
      → Reaches (λ g a b. reported_all g a vs b) stat (add_vnodes now addr vs stat)
  unfolding add_vnodes reported_all
  add_vnodes-Reaches h [] stat = (stat, refl, refl, λ g a. refl)
  add_vnodes-Reaches h ((k, v) ∷ vs) stat =
      let (s, step, t, at_s) = add_vnode-Reaches h v stat in
      let (s', rest, t', at_s') = add_vnodes-Reaches h vs s in
      (s', rw (step, rest) refl, t' ∙ t, λ g a. at_s' g a ∙ ap (reported_all g a vs) (at_s g a))

-- The time of a reply.
abbrev pub reply_time : Response → ℤ
reply_time r = unix (to_int64 (pos r.timestamp.sec)) (to_int64 (pos (mul64 r.timestamp.usec 1000)))

module _ {F : Type 0} ⦃fl : Floats F⦄ where
  -- For a sender's address of at most 32 bytes, AddStatEntry returns; it sets the time to that of
  -- the reply, whatever the reply is; and the statistics at each place, a group with a backend's
  -- key, are those before, changed in turn by each part of an enabled reply that is about an
  -- enabled backend at that place, which is made if it was not known. All other places stay.
  pub add_stat_entry-places :
      (unmarshal : List ℕ → Response) (now : ℤ) (entry : StatEntry) (stat : DnetStat F)
      → length entry.addr.addr ≤ 32
      → (stat' : DnetStat F) × (add_stat_entry unmarshal now entry stat ≡ some stat')
        × (stat'.time ≡ reply_time (unmarshal entry.stat))
        × ((g : ℕ) (a : AddressBackend)
            → backend_at g a stat' ≡ (
                if (unmarshal entry.stat).monitor_status == "enabled"
                then reported_all now entry.addr g a
                    (unmarshal entry.stat).backends
                    (backend_at g a stat)
                else backend_at g a stat))
  unfolding add_stat_entry backend_at
  add_stat_entry-places unmarshal now entry stat h =
      let r = unmarshal entry.stat in
      let stamped : DnetStat F = record stat { time = reply_time r } in
      elim (Bool-cases (r.monitor_status == "enabled")) [
        | inl on ↦
            let (s, run, t, places) = add_vnodes-Reaches now entry.addr h r.backends stamped in
            (s, rw (on, run) refl, t, λ g a. rw on (places g a))
        | inr off ↦ (stamped, rw off refl, refl, λ g a. rw off refl)
      ]
