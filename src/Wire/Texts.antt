-- ===== src/Wire/Texts.antt =====
-- Texts of addresses and identifiers: NewDnetAddrStr, String and HostString of elliptics/ctogo.go,
-- and the texts of RawAddr, AddressBackend and StatBackend.ID of elliptics/stat.go. The C library
-- reads and writes the texts of addresses: `create` is dnet_create_addr_str with the structure that
-- it fills, `text_of` and `host_of` are dnet_addr_string and dnet_addr_host_string.
pub mod Created
use elliptics_go.Base.{
  ℕ, ◌+◌, ◌/◌, ◌%◌, List, [], ◌∷◌, ◌++◌, Option, none, some, ◌>>=◌, String, ltb, if◌then◌else◌,
  length, take,
}
use elliptics_go.Base.Int.{ℤ, pos, negsuc}
use elliptics_go.Base.Text.{concat, show_ℕ, show_ℤ}
use elliptics_go.Errors.{Error, text, Result, ok, err}
use elliptics_go.Wire.{DnetRawId}
use elliptics_go.Wire.Address.{CDnetAddr, DnetAddr, new_dnet_addr, c_addr}

-- NewDnetAddrStr, with what C made of the text and its answer.
unfoldable pub created : String → CDnetAddr → ℤ → Result DnetAddr
created addr_str caddr (pos n) = ok (new_dnet_addr caddr)
created addr_str caddr (negsuc n) =
    err (text (concat ("could not create addr '" ∷ addr_str ∷ "': " ∷ show_ℤ (negsuc n) ∷ [])))

unfoldable pub new_dnet_addr_str : (String → CDnetAddr × ℤ) → String → Result DnetAddr
unfolding created
new_dnet_addr_str create addr_str = created addr_str (create addr_str).0 (create addr_str).1

-- `addr_size` is DNET_ADDR_SIZE, and `tmp` what dnet_addr_alloc gives.
module _ (addr_size : ℕ) (tmp : CDnetAddr) where
  -- (a *DnetAddr) String()
  unfoldable pub addr_string : (CDnetAddr → String) → DnetAddr → String
  addr_string text_of a = concat (text_of (c_addr addr_size a tmp) ∷ ":" ∷ show_ℕ a.family ∷ [])

  -- (a *DnetAddr) HostString()
  unfoldable pub host_string : (CDnetAddr → String) → DnetAddr → String
  host_string host_of a = host_of (c_addr addr_size a tmp)
