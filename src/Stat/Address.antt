-- ===== src/Stat/Address.antt =====
-- The key of a backend: NewAddressBackend and RawAddr.DnetAddr of elliptics/stat.go.
use elliptics_go.Base.{
  ℕ, ◌-◌, ◌≤◌, ◌≡◌, List, ◌++◌, [], length, take, replicate, Option, none, some, ltb, if◌then◌else◌,
  arith, refl, take-append_length, ◌∙◌, ap, ◌∷◌, zero, suc, length-append, length-replicate,
}
use elliptics_go.Base.Int.{ℤ}
use elliptics_go.Wire.Address.{DnetAddr}
use elliptics_go.Stat.Types.{RawAddr, AddressBackend}

-- len(raw.Addr)
abbrev pub raw_addr_len : ℕ
raw_addr_len = 32

-- copy(raw.Addr[:], bytes): the array keeps its length, and its tail stays zero.
unfoldable pub copy_raw : List ℕ → List ℕ
copy_raw bytes = take raw_addr_len bytes ++ replicate (raw_addr_len - length bytes) 0

-- `none` is log.Fatalf, which ends the process.
unfoldable pub new_address_backend : DnetAddr → ℤ → Option AddressBackend
unfolding copy_raw
new_address_backend addr backend =
    if ltb raw_addr_len (length addr.addr)
    then none
    else some (record {
      addr = record { addr = copy_raw addr.addr; len = length addr.addr; family = addr.family };
      backend = backend;
    })

-- (a *RawAddr) DnetAddr(): a.Addr[:a.Len]
unfoldable pub dnet_addr : RawAddr → DnetAddr
dnet_addr a = record { addr = take a.len a.addr; family = a.family }

take_of_le : (n : ℕ) (xs : List ℕ) → length xs ≤ n → take n xs ≡ xs
take_of_le zero [] h = refl
take_of_le zero (x ∷ xs) h = absurd (omega arith)
take_of_le (suc n) [] h = refl
take_of_le (suc n) (x ∷ xs) h = ap (◌∷◌ x) (take_of_le n xs (omega arith))

take-copy_raw :
    (bytes : List ℕ) → length bytes ≤ raw_addr_len → take (length bytes) (copy_raw bytes) ≡ bytes
unfolding copy_raw
take-copy_raw bytes h =
    rw (take_of_le 32 bytes h) (take-append_length bytes (replicate (32 - length bytes) 0))

take-length :
    (bytes : List ℕ) → length bytes ≤ raw_addr_len → length (copy_raw bytes) ≡ raw_addr_len
unfolding copy_raw
take-length bytes h = rw (take_of_le 32 bytes h) (
    length-append bytes (replicate (32 - length bytes) 0)
    ∙ omega (arith, length-replicate {A = ℕ} (32 - length bytes) 0))

-- For every address of at most 32 bytes there is a key, whose array has 32 bytes, and from which
-- the address and the backend's number are read back.
pub new_address_backend-dnet_addr :
    (addr : DnetAddr) (backend : ℤ)
    → length addr.addr ≤ raw_addr_len
    → (k : AddressBackend) × (new_address_backend addr backend ≡ some k)
      × (dnet_addr k.addr ≡ addr)
      × (k.backend ≡ backend)
      × (length k.addr.addr ≡ raw_addr_len)
unfolding new_address_backend dnet_addr
new_address_backend-dnet_addr addr backend h = (
  record {
    addr = record { addr = copy_raw addr.addr; len = length addr.addr; family = addr.family };
    backend = backend;
  },
  ground arith,
  rw (take-copy_raw addr.addr h) refl,
  refl,
  take-length addr.addr h,
)
