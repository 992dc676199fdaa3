-- ===== src/Json/Counters.antt =====
-- The command counters of elliptics/stat_json.go, with the methods that add them up.
use elliptics_go.Base.{ℕ}
use elliptics_go.Base.Word.{add64}

pub record CommandStat : Type 0 where
  pub success : ℕ
  pub failures : ℕ
  pub size : ℕ
  pub time : ℕ

pub record LayerStat : Type 0 where
  pub outside : CommandStat
  pub internal : CommandStat

pub record PacketOnlyCommandStat : Type 0 where
  pub success : ℕ
  pub failures : ℕ

pub record DstStat : Type 0 where
  pub storage : PacketOnlyCommandStat
  pub proxy : PacketOnlyCommandStat

pub record Command : Type 0 where
  pub cache : LayerStat
  pub disk : LayerStat
  pub total : DstStat

-- The methods of CommandStat.
unfoldable pub stat_success : CommandStat → ℕ
stat_success c = c.success

unfoldable pub stat_failures : CommandStat → ℕ
stat_failures c = c.failures

unfoldable pub stat_bytes : CommandStat → ℕ
stat_bytes c = c.size

-- The methods of LayerStat.
unfoldable pub layer_success : LayerStat → ℕ
unfolding stat_success add64
layer_success l = add64 (stat_success l.outside) (stat_success l.internal)

unfoldable pub layer_failures : LayerStat → ℕ
unfolding stat_failures add64
layer_failures l = add64 (stat_failures l.outside) (stat_failures l.internal)

unfoldable pub layer_bytes : LayerStat → ℕ
unfolding stat_bytes add64
layer_bytes l = add64 (stat_bytes l.outside) (stat_bytes l.internal)

-- RequestsSuccess, RequestsFailures and Bytes of Command.
unfoldable pub requests_success : Command → ℕ
unfolding layer_success add64
requests_success c = add64 (layer_success c.cache) (layer_success c.disk)

unfoldable pub requests_failures : Command → ℕ
unfolding layer_failures add64
requests_failures c = add64 (layer_failures c.cache) (layer_failures c.disk)

unfoldable pub bytes : Command → ℕ
unfolding layer_bytes add64
bytes c = add64 (layer_bytes c.cache) (layer_bytes c.disk)
