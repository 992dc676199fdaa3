-- ===== src/Stat/Entry/Parts.antt =====
-- AddStatEntry against a description of each part of a reply.
use elliptics_go.Base.{
  ℕ, ◌*◌, ◌/◌, ◌%◌, ◌≤◌, ◌≡◌, ◌≢◌, ◌⊎◌, inl, inr, refl, List, [], ◌∷◌, Option, some, true, false,
  not, ◌&&◌, ◌∙◌, arith, String, length, if◌then◌else◌, eqb, Bool-cases, subst, sym,
}
use elliptics_go.Base.Int.{ℤ, pos, eqb_ℤ, eqb_ℤ_iff, to_int64}
use elliptics_go.Base.Word.{mul64, u64_mod}
use elliptics_go.Base.Dict.{Dict, lookup, insert, lookup-insert}
use elliptics_go.Base.Eq.{string_eq, ◌==◌}
use elliptics_go.Base.Float.{Floats}
use elliptics_go.Json.{BackendError, Response, VNode}
use elliptics_go.Json.Counters.{Command, requests_success, requests_failures, bytes}
use elliptics_go.Wire.Address.{DnetAddr}
use elliptics_go.Wire.Time.{unix}
use elliptics_go.Stat.Types.{AddressBackend, StatBackend, DnetStat, CStat, float_zero}
use elliptics_go.Stat.Find.{backend_at}
use elliptics_go.Stat.Find.Laws.{at_or_new}
use elliptics_go.Stat.Entry.{
  StatEntry, command_stat, add_commands, filled, filled_vfs, size_limit, updated, defrag_state_text,
  add_stat_entry,
}
use elliptics_go.Stat.Entry.Laws.{
  reports, reported, reported_all, reply_time, add_stat_entry-places,
}

limit_cases :
    (limit flags total : ℕ)
    → (if not (eqb limit 0) && eqb (flags / 16 % 2) 0 then limit else total)
      ≡ (if eqb limit 0 then total else if eqb (flags / 16 % 2) 0 then limit else total)
limit_cases limit flags total = ground arith

module _ {F : Type 0} ⦃fl : Floats F⦄ where
  -- The last of a reply's commands with a name, or what was there.
  abbrev pub newest : String → Dict String Command → Option (CStat F) → Option (CStat F)
  newest name [] old = old
  newest name ((n, c) ∷ rest) old = newest name rest (
      if n == name
      then some (record {
        requests_success = requests_success c;
        requests_failures = requests_failures c;
        bytes = bytes c;
        rps_failures = float_zero;
        rps_success = float_zero;
        bps = float_zero;
      })
      else old)

  add_commands-newest :
      (name : String) (cs : Dict String Command) (old : Dict String (CStat F))
      → lookup name (add_commands cs old) ≡ newest name cs (lookup name old)
  unfolding add_commands command_stat
  add_commands-newest name [] old = refl
  add_commands-newest name ((n, c) ∷ rest) old =
      add_commands-newest name rest (insert n (command_stat c) old)
      ∙ rw (lookup-insert n name (command_stat c) old) refl

  -- What a backend `b` becomes by a part of a reply that has no error.
  pub record Filled (v : VNode) (b c : StatBackend F) : Type 0 where
    pub total : c.vfs.total ≡ v.backend.vfs.frsize * v.backend.vfs.blocks % u64_mod
    pub avail : c.vfs.avail ≡ v.backend.vfs.bfree * v.backend.vfs.bsize % u64_mod
    pub limit : c.vfs.total_size_limit ≡ (
        if eqb v.backend.config.blob_size_limit 0
        then c.vfs.total
        else if eqb (v.backend.config.blob_flags / 16 % 2) 0
        then v.backend.config.blob_size_limit
        else c.vfs.total)
    pub sizes :
        (c.vfs.backend_removed_size ≡ v.backend.summary_stats.records_removed_size)
        × (c.vfs.backend_used_size ≡ v.backend.summary_stats.base_size)
    pub records :
        (c.vfs.records_total ≡ v.backend.summary_stats.records_total)
        × (c.vfs.records_removed ≡ v.backend.summary_stats.records_removed)
        × (c.vfs.records_corrupted ≡ v.backend.summary_stats.records_corrupted)
    pub defragmentation :
        (c.defrag_start_time
          ≡ unix (to_int64 (pos v.backend.global_stats.data_sort_start_time)) (pos 0))
        × (c.defrag_completion_time
            ≡ unix (to_int64 (pos v.backend.global_stats.data_sort_completion_time)) (pos 0))
        × (c.defrag_completion_status ≡ v.backend.global_stats.data_sort_completion_status)
        × (c.defrag_state ≡ v.status.defrag_state)
        × (c.defrag_state_str ≡ defrag_state_text v.status.defrag_state)
    pub status : (c.ro ≡ v.status.ro) × (c.delay ≡ v.status.delay)
    pub disk :
        (c.dstat.rsectors ≡ v.backend.dstat.read_sectors)
        × (c.dstat.wsectors ≡ v.backend.dstat.write_sectors)
        × (c.dstat.io_ticks ≡ v.backend.dstat.io_ticks)
        × (c.dstat.rbs ≡ b.dstat.rbs)
        × (c.dstat.wbs ≡ b.dstat.wbs)
        × (c.dstat.util ≡ b.dstat.util)
    pub commands :
        (name : String) → lookup name c.commands ≡ newest name v.commands (lookup name b.commands)
    pub kept : (c.id ≡ b.id) × (c.sum ≡ b.sum) × (c.percentage ≡ b.percentage) × (c.pid ≡ b.pid)

  filled-Filled :
      (v : VNode) (b : StatBackend F) (e : BackendError)
      → Filled v b (filled v (record b { error = e }))
  unfolding filled filled_vfs size_limit mul64
  filled-Filled v b e = record {
    total = refl;
    avail = refl;
    limit =
        limit_cases v.backend.config.blob_size_limit v.backend.config.blob_flags
          (v.backend.vfs.frsize * v.backend.vfs.blocks % u64_mod);
    sizes = (refl, refl);
    records = (refl, refl, refl);
    defragmentation = (refl, refl, refl, refl, refl);
    status = (refl, refl);
    disk = (refl, refl, refl, refl, refl, refl);
    commands = λ name. add_commands-newest name v.commands b.commands;
    kept = (refl, refl, refl, refl);
  }

  -- What a part of a reply makes of a backend: its error is that of the part, and it is filled by a
  -- part with no error and otherwise as before.
  abbrev pub Becomes : VNode → StatBackend F → StatBackend F → Type 0
  Becomes v b c =
      ((v.backend.error.code ≢ pos 0) × (c ≡ record b { error = v.backend.error }))
      ⊎ ((v.backend.error.code ≡ pos 0) × (c.error ≡ v.backend.error) × Filled v b c)

  updated-filled :
      (v : VNode) (b : StatBackend F)
      → eqb_ℤ v.backend.error.code (pos 0) ≡ true
      → updated v b ≡ filled v (record b { error = v.backend.error })
  unfolding updated
  updated-filled v b e = rw e refl

  updated_of_error :
      (v : VNode) (b : StatBackend F)
      → eqb_ℤ v.backend.error.code (pos 0) ≡ false
      → updated v b ≡ record b { error = v.backend.error }
  unfolding updated
  updated_of_error v b e = rw e refl

  updated-Becomes : (v : VNode) (b : StatBackend F) → Becomes v b (updated v b)
  unfolding filled
  updated-Becomes v b =
      let code = v.backend.error.code in
      elim (Bool-cases (eqb_ℤ code (pos 0))) [
        | inl fine ↦
            let zero_code = (eqb_ℤ_iff code (pos 0)).0 fine in
            subst (λ c. Becomes v b c) (sym (updated-filled v b fine))
              (inr (zero_code, refl, filled-Filled v b v.backend.error))
        | inr failed ↦
            inl (λ e. let fine = (eqb_ℤ_iff code (pos 0)).1 e in cc, updated_of_error v b failed)
      ]

  module _ (now : ℤ) (addr : DnetAddr) (g : ℕ) (a : AddressBackend) where
    -- A place after one part of a reply: as before where the part is not about it, and else with a
    -- backend that the part made of the one there, or of a new one.
    abbrev pub OnePart : VNode → Option (StatBackend F) → Option (StatBackend F) → Type 0
    OnePart v b r =
        ((reports addr g a v ≡ false) × (r ≡ b))
        ⊎ ((reports addr g a v ≡ true)
            × ((c : StatBackend F) × (r ≡ some c) × Becomes v (at_or_new now b) c))

    -- After all the parts, in turn.
    abbrev pub AllParts :
        Dict String VNode → Option (StatBackend F) → Option (StatBackend F) → Type 0
    AllParts [] b r = r ≡ b
    AllParts ((_, v) ∷ vs) b r = (m : Option (StatBackend F)) × OnePart v b m × AllParts vs m r

    reported-OnePart :
        (v : VNode) (b : Option (StatBackend F)) → OnePart v b (reported now addr g a v b)
    reported-OnePart v b = elim (Bool-cases (reports addr g a v)) [
      | inl about ↦
          inr (
            about,
            (updated v (at_or_new now b), rw about refl, updated-Becomes v (at_or_new now b)),
          )
      | inr other ↦ inl (other, rw other refl)
    ]

    reported_all-AllParts :
        (vs : Dict String VNode) (b : Option (StatBackend F))
        → AllParts vs b (reported_all now addr g a vs b)
    unfolding reported_all
    reported_all-AllParts [] b = refl
    reported_all-AllParts ((k, v) ∷ vs) b = (
      reported now addr g a v b,
      reported-OnePart v b,
      reported_all-AllParts vs (reported now addr g a v b),
    )

  -- A place after a reply: only one of a server whose monitoring is enabled changes it.
  abbrev pub AfterReply :
      ℤ
      → DnetAddr
      → Response
      → ℕ
      → AddressBackend
      → Option (StatBackend F)
      → Option (StatBackend F)
      → Type 0
  AfterReply now addr reply g a b r =
      (((reply.monitor_status == "enabled") ≡ true) × AllParts now addr g a reply.backends b r)
      ⊎ (((reply.monitor_status == "enabled") ≡ false) × (r ≡ b))

  -- For a sender's address of at most 32 bytes, AddStatEntry returns and sets the time to that of
  -- the reply. Each place of the statistics, a group with a backend's key, changes only by the parts
  -- of an enabled reply that are about an enabled backend there, in turn. Such a part makes the
  -- backend if it was not known and gives it its error. A part whose error has a code other than 0
  -- changes nothing else. One with no error sets the sizes, records, states, sectors and the counters
  -- of the commands that it names, as it reports them, and keeps the shares, the rates of the disk
  -- and the controller.
  pub add_stat_entry_parts :
      (unmarshal : List ℕ → Response) (now : ℤ) (entry : StatEntry) (stat : DnetStat F)
      → length entry.addr.addr ≤ 32
      → (stat' : DnetStat F) × (add_stat_entry unmarshal now entry stat ≡ some stat')
        × (stat'.time ≡ reply_time (unmarshal entry.stat))
        × ((g : ℕ) (a : AddressBackend)
            → AfterReply now entry.addr
                (unmarshal entry.stat)
                g
                a
                (backend_at g a stat)
                (backend_at g a stat'))
  add_stat_entry_parts unmarshal now entry stat small =
      let reply = unmarshal entry.stat in
      let (stat', run, at, places) = add_stat_entry-places unmarshal now entry stat small in
      (
        stat',
        run,
        at,
        λ g a. elim (Bool-cases (reply.monitor_status == "enabled")) [
          | inl on ↦
              let same : backend_at g a stat'
                  ≡ reported_all now entry.addr g a reply.backends (backend_at g a stat) =
                places g a ∙ rw on refl in
              inl (
                on,
                subst (λ r. AllParts now entry.addr g a reply.backends (backend_at g a stat) r)
                    (sym same)
                    (reported_all-AllParts now entry.addr g a reply.backends (backend_at g a stat)),
              )
          | inr off ↦ inr (off, places g a ∙ rw off refl)
        ],
      )
