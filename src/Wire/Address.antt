-- ===== src/Wire/Address.antt =====
-- Addresses of elliptics/ctogo.go: DnetAddr, NewDnetAddr and CAddr.
use elliptics_go.Base.{ℕ, List, ◌++◌, ◌%◌, ◌^◌, length, take, drop, ltb, if◌then◌else◌}

-- struct dnet_addr
pub record CDnetAddr : Type 0 where
  pub addr : List ℕ
  pub addr_len : ℕ
  pub family : ℕ

pub record DnetAddr : Type 0 where
  pub addr : List ℕ
  pub family : ℕ

-- C.GoBytes copies the first `addr_len` bytes of the array.
unfoldable pub new_dnet_addr : CDnetAddr → DnetAddr
new_dnet_addr a = record { addr = take a.addr_len a.addr; family = a.family }

-- (a *DnetAddr) CAddr(tmp), with `addr_size` for DNET_ADDR_SIZE: the bytes past the copied ones
-- stay as `tmp` had them.
unfoldable pub c_addr : ℕ → DnetAddr → CDnetAddr → CDnetAddr
c_addr addr_size a tmp =
    let len = if ltb addr_size (length a.addr) then addr_size else length a.addr in
    record {
      addr = take len a.addr ++ drop len tmp.addr;
      addr_len = len % 2 ^ 16;
      family = a.family % 2 ^ 16;
    }
