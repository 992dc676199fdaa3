-- ===== src/Stat/Report/Laws.antt =====
-- What the summary of a group contains.
use elliptics_go.Base.{
  ℕ, ◌+◌, ◌%◌, ◌≡◌, [], ◌∷◌, ◌++◌, map, append_assoc, append-nil, arith, String, ◌<◌, ◌∙◌, sym,
}
use elliptics_go.Base.Word.{add64, u64_mod}
use elliptics_go.Base.Dict.{Dict}
use elliptics_go.Wire.Address.{DnetAddr}
use elliptics_go.Stat.Types.{AddressBackend, StatBackend, StatGroup, Vfs}
use elliptics_go.Stat.Report.{
  StatGroupData, empty_data, backend_data, add_backend, add_backends, stat_group_data,
}

module _ {F : Type 0} where
  -- A counter, summed over the backends.
  abbrev pub sum_of : (Vfs → ℕ) → Dict AddressBackend (StatBackend F) → ℕ
  sum_of counter [] = 0
  sum_of counter ((_, b) ∷ bs) = counter b.vfs + sum_of counter bs

  module _ (addr_string : DnetAddr → String) where
    abbrev Sums : Dict AddressBackend (StatBackend F) → StatGroupData F → StatGroupData F → Type 0
    Sums bs reply r =
        (r.backends ≡ reply.backends ++ map (λ e. backend_data addr_string e.0 e.1) bs)
        × (r.records_total ≡ (reply.records_total + sum_of (λ v. v.records_total) bs) % u64_mod)
        × (r.records_removed
            ≡ (reply.records_removed + sum_of (λ v. v.records_removed) bs) % u64_mod)
        × (r.records_corrupted
            ≡ (reply.records_corrupted + sum_of (λ v. v.records_corrupted) bs) % u64_mod)

    abbrev InRange : StatGroupData F → Type 0
    InRange r =
        (r.records_total < u64_mod)
        × (r.records_removed < u64_mod)
        × (r.records_corrupted < u64_mod)

    add_backends-Sums :
        (bs : Dict AddressBackend (StatBackend F)) (reply : StatGroupData F)
        → InRange reply
        → Sums bs reply (add_backends addr_string bs reply)
    unfolding add_backends add64
    add_backends-Sums [] reply h =
        (sym (append-nil reply.backends), omega arith, omega arith, omega arith)
    add_backends-Sums ((ab, b) ∷ bs) reply h =
        let next = add_backend addr_string ab b reply in
        let (listed, t, r, c) = add_backends-Sums bs next (omega arith, omega arith, omega arith) in
        (
          listed ∙ append_assoc reply.backends (backend_data addr_string ab b ∷ []) _,
          t ∙ omega arith,
          r ∙ omega arith,
          c ∙ omega arith,
        )

  -- The summary of a group lists its backends in the order of the map, each with its address, its
  -- number and its statistics, and each of the three record counters is the sum over the backends,
  -- modulo 2 ^ 64.
  pub stat_group_data-sums :
      (addr_string : DnetAddr → String) (sg : StatGroup F)
      → let r = stat_group_data addr_string sg in
        (r.backends ≡ map (λ e. backend_data addr_string e.0 e.1) sg.ab)
        × (r.records_total ≡ sum_of (λ v. v.records_total) sg.ab % u64_mod)
        × (r.records_removed ≡ sum_of (λ v. v.records_removed) sg.ab % u64_mod)
        × (r.records_corrupted ≡ sum_of (λ v. v.records_corrupted) sg.ab % u64_mod)
  unfolding stat_group_data
  stat_group_data-sums addr_string sg =
      let (listed, t, r, c) =
        add_backends-Sums addr_string sg.ab empty_data (omega arith, omega arith, omega arith) in
      (listed, t ∙ omega arith, r ∙ omega arith, c ∙ omega arith)
