-- ===== src/Stat/Report.antt =====
-- The summaries of elliptics/stat.go: StatGroupData and StatData.
pub mod Laws
use elliptics_go.Base.{ℕ, ◌≡◌, List, [], ◌∷◌, ◌++◌, String}
use elliptics_go.Base.Int.{ℤ}
use elliptics_go.Base.Word.{add64}
use elliptics_go.Base.Text.{show_ℕ}
use elliptics_go.Base.Dict.{Dict, insert}
use elliptics_go.Base.Eq.{string_eq}
use elliptics_go.Wire.Address.{DnetAddr}
use elliptics_go.Stat.Types.{AddressBackend, StatBackend, StatGroup, DnetStat}
use elliptics_go.Stat.Address.{dnet_addr}

pub record StatBackendData (F : Type 0) : Type 0 where
  pub address : String
  pub backend : ℤ
  pub stat : StatBackend F

pub record StatGroupData (F : Type 0) : Type 0 where
  pub backends : List (StatBackendData F)
  pub records_total : ℕ
  pub records_removed : ℕ
  pub records_corrupted : ℕ

abbrev pub empty_data : {F : Type 0} → StatGroupData F
empty_data = record { backends = []; records_total = 0; records_removed = 0; records_corrupted = 0 }

-- `addr_string` is (a *DnetAddr) String, which asks the C library.
module _ {F : Type 0} (addr_string : DnetAddr → String) where
  unfoldable pub backend_data : AddressBackend → StatBackend F → StatBackendData F
  backend_data ab b = record {
    address = addr_string (dnet_addr ab.addr);
    backend = ab.backend;
    stat = b;
  }

  -- The body of the loop over sg.Ab, and the loop.
  unfoldable pub add_backend : AddressBackend → StatBackend F → StatGroupData F → StatGroupData F
  unfolding backend_data
  add_backend ab b reply = record {
    backends = reply.backends ++ backend_data ab b ∷ [];
    records_total = add64 reply.records_total b.vfs.records_total;
    records_removed = add64 reply.records_removed b.vfs.records_removed;
    records_corrupted = add64 reply.records_corrupted b.vfs.records_corrupted;
  }

  unfoldable pub add_backends :
      Dict AddressBackend (StatBackend F) → StatGroupData F → StatGroupData F
  unfolding add_backend
  add_backends [] reply = reply
  add_backends ((ab, b) ∷ bs) reply = add_backends bs (add_backend ab b reply)

  unfoldable pub stat_group_data : StatGroup F → StatGroupData F
  stat_group_data sg = add_backends sg.ab empty_data

  add_groups : Dict ℕ (StatGroup F) → Dict String (StatGroupData F) → Dict String (StatGroupData F)
  add_groups [] reply = reply
  add_groups ((group, sg) ∷ gs) reply =
      add_groups gs (insert (show_ℕ group) (stat_group_data sg) reply)

  unfoldable pub stat_data : DnetStat F → Dict String (StatGroupData F)
  unfolding add_groups
  stat_data stat = add_groups stat.group []
