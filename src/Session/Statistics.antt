-- ===== src/Session/Statistics.antt =====
-- The statistics request of elliptics/stat.go: go_stat_callback and DnetStat(). The replies come on
-- the channel of a request; the routing table is that of GetRoutes.
pub mod Collected
pub mod Gathered
use elliptics_go.Base.{
  ℕ, ◌+◌, ◌^◌, List, [], ◌∷◌, Option, none, some, ◌>>=◌, String, eqb, if◌then◌else◌,
}
use elliptics_go.Base.Int.{ℤ, pos, to_int32}
use elliptics_go.Base.Float.{Floats}
use elliptics_go.Wire.{CDnetCmd, new_dnet_cmd}
use elliptics_go.Wire.Address.{CDnetAddr, new_dnet_addr}
use elliptics_go.Json.{Response}
use elliptics_go.Stat.Types.{DnetStat, zero_time}
use elliptics_go.Stat.Entry.{StatEntry, add_stat_entry}
use elliptics_go.Route.{CDnetRouteEntry, get_routes}
use elliptics_go.Session.Results.{Item, stat_item}
use elliptics_go.Session.World.{stats, World, session_get_stats, issue}
use elliptics_go.Session.Callback.{stat_reply, result_callback}
use elliptics_go.Session.Arrival.{go_bytes}
use elliptics_go.Session.Requests.{open_request}

-- struct go_stat_result; `none` is a null `stat_data`.
pub record CStatResult : Type 0 where
  pub cmd : CDnetCmd
  pub addr : CDnetAddr
  pub stat_data : Option (List ℕ)
  pub stat_size : ℕ

unfoldable pub reply_bytes : CStatResult → Option (List ℕ)
unfolding go_bytes
reply_bytes r = elim r.stat_data [
  | none ↦ some []
  | some p ↦ if eqb r.stat_size 0 then some [] else go_bytes p (to_int32 (pos r.stat_size))
]

-- `id_size` is DNET_ID_SIZE; `keys_find` is the search of the C library for a key.
unfoldable pub go_stat_callback :
    ℕ → (List String → List ℕ → Option String) → CStatResult → ℕ → World → Option World
go_stat_callback id_size keys_find r key w = do
  bytes ← reply_bytes r
  result_callback keys_find key
      (stat_reply (record {
        cmd = new_dnet_cmd id_size r.cmd;
        addr = new_dnet_addr r.addr;
        stat = bytes;
        err = none;
      }))
      w

-- StatCategoryBackend | StatCategoryProcFS | StatCategoryCommands
abbrev pub categories : ℕ
categories = 2 ^ 4 + 2 ^ 6 + 2 ^ 2

-- DnetStat() up to its call of C.
unfoldable pub ask_stats : World → World × ℕ
ask_stats w =
    let (w1, o) = open_request stats w in (issue (session_get_stats o.r o.f categories) w1, o.ch)

module _ {F : Type 0} ⦃fl : Floats F⦄ where
  -- The loop over the channel. An item of another type cannot be on it.
  unfoldable pub collect_stats :
      (List ℕ → Response) → ℤ → List Item → DnetStat F → Option (DnetStat F)
  collect_stats unmarshal now [] st = some st
  collect_stats unmarshal now (stat_item se ∷ items) st = do
    st' ← add_stat_entry unmarshal now se st
    collect_stats unmarshal now items st'
  collect_stats unmarshal now (_ ∷ items) st = none

  -- DnetStat() from there on, with the routing table and what the channel carries until it is
  -- closed.
  unfoldable pub dnet_stat :
      (List ℕ → Response) → ℕ → ℤ → List CDnetRouteEntry → List Item → Option (DnetStat F)
  dnet_stat unmarshal id_size now routes items = do
    st ← get_routes id_size now routes (record { time = zero_time; group = [] })
    collect_stats unmarshal now items st
