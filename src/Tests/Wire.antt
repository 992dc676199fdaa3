-- ===== src/Tests/Wire.antt =====
-- Addresses and attributes that cross between Go and C.
use elliptics_go.Base.{◌≡◌, ◌≢◌, [], ◌∷◌, arith}
use elliptics_go.Base.Int.{pos}
use elliptics_go.Wire.Address.{new_dnet_addr, c_addr}
use elliptics_go.Wire.Attributes.{CDnetIoAttr, new_dnet_io_attr}
use elliptics_go.Wire.Time.{unix}
use elliptics_go.Wire.RoundTrip.{new_dnet_addr-c_addr, new_dnet_io_attr-timestamp}
use elliptics_go.Tests.Samples.{sample_addr, sample_c_addr}

-- An IPv4 address of four bytes, in a structure that held another one.
new_dnet_addr-c_addr_example :
    new_dnet_addr (c_addr 32 sample_addr sample_c_addr)
    ≡ record { addr = 10 ∷ 0 ∷ 0 ∷ 1 ∷ []; family = 2 }
new_dnet_addr-c_addr_example =
    new_dnet_addr-c_addr 32 sample_addr sample_c_addr (omega arith) (omega arith)

-- A write at 1.5 seconds.
abbrev sample_attr : CDnetIoAttr
sample_attr = record {
  parent = 1 ∷ [];
  id = 2 ∷ [];
  start = 0;
  num = 0;
  timestamp = record { tsec = pos 1; tnsec = pos 500_000_000 };
  user_flags = 0;
  total_size = 10;
  flags = 0;
  offset = 0;
  size = 10;
}

new_dnet_io_attr-timestamp_example :
    (new_dnet_io_attr 64 sample_attr).timestamp ≢ unix (pos 1) (pos 500_000_000)
new_dnet_io_attr-timestamp_example = new_dnet_io_attr-timestamp 64 sample_attr (λ e. ground arith)
