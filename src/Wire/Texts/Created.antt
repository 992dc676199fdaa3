-- ===== src/Wire/Texts/Created.antt =====
-- An address of elliptics/ctogo.go that is made from a text, and its texts.
use elliptics_go.Base.{ℕ, ◌≤◌, ◌<◌, ◌^◌, ◌≡◌, ◌∙◌, ap, refl, take_all, [], ◌∷◌, String, length}
use elliptics_go.Base.Int.{ℤ, pos}
use elliptics_go.Base.Text.{concat, show_ℕ}
use elliptics_go.Errors.{ok}
use elliptics_go.Wire.Address.{CDnetAddr, DnetAddr, new_dnet_addr, c_addr}
use elliptics_go.Wire.RoundTrip.{new_dnet_addr-c_addr}
use elliptics_go.Wire.Texts.{created, new_dnet_addr_str, addr_string, host_string}

-- C's text of an address reads no more of its structure than NewDnetAddr does.
abbrev pub Reads : (CDnetAddr → String) → Type 0
Reads text_of = (x y : CDnetAddr) → new_dnet_addr x ≡ new_dnet_addr y → text_of x ≡ text_of y

c_addr-same :
    (addr_size : ℕ) (tmp caddr : CDnetAddr)
    → length (new_dnet_addr caddr).addr ≤ addr_size
    → addr_size < 2 ^ 16
    → caddr.family < 2 ^ 16
    → new_dnet_addr (c_addr addr_size (new_dnet_addr caddr) tmp) ≡ new_dnet_addr caddr
unfolding new_dnet_addr
c_addr-same addr_size tmp caddr fits small family =
    new_dnet_addr-c_addr addr_size (new_dnet_addr caddr) tmp small family
    ∙ ap (λ bytes. record { addr = bytes; family = caddr.family })
        (take_all addr_size (new_dnet_addr caddr).addr fits)

created_some :
    (s : String) (caddr : CDnetAddr) (n : ℕ) (answer : ℤ)
    → answer ≡ pos n
    → created s caddr answer ≡ ok (new_dnet_addr caddr)
unfolding created
created_some s caddr n answer same = rw same refl

-- Where C accepts a text, with an address whose bytes fit its array and whose family fits 16 bits,
-- and C's texts of an address read only its family and its counted bytes: NewDnetAddrStr gives an
-- address, and String and HostString of it are what C writes for the address that it had made, the
-- first one with the family behind it.
pub addr_string-new_dnet_addr_str :
    (addr_size : ℕ) (tmp : CDnetAddr) (create : String → CDnetAddr × ℤ)
    (text_of host_of : CDnetAddr → String) (s : String) (n : ℕ)
    → addr_size < 2 ^ 16
    → Reads text_of
    → Reads host_of
    → (create s).1 ≡ pos n
    → length (new_dnet_addr (create s).0).addr ≤ addr_size
    → (create s).0.family < 2 ^ 16
    → (a : DnetAddr) × (new_dnet_addr_str create s ≡ ok a)
      × (addr_string addr_size tmp text_of a
          ≡ concat (text_of (create s).0 ∷ ":" ∷ show_ℕ (create s).0.family ∷ []))
      × (host_string addr_size tmp host_of a ≡ host_of (create s).0)
unfolding new_dnet_addr_str addr_string host_string new_dnet_addr
addr_string-new_dnet_addr_str addr_size tmp create text_of host_of s n small reads_text reads_host
      accepted fits family =
    let caddr = (create s).0 in
    let back = c_addr-same addr_size tmp caddr fits small family in
    let copy = c_addr addr_size (new_dnet_addr caddr) tmp in
    (
      new_dnet_addr caddr,
      created_some s caddr n (create s).1 accepted,
      ap (λ t. concat (t ∷ ":" ∷ show_ℕ (new_dnet_addr caddr).family ∷ []))
          (reads_text copy caddr back),
      reads_host copy caddr back,
    )
