-- ===== src/Stat/Texts.antt =====
-- The texts of elliptics/stat.go: String of RawAddr and AddressBackend, and IDString, with the part
-- of encoding/hex and strings that it uses. The C library writes the texts of addresses.
use elliptics_go.Base.{
  ℕ, zero, suc, ◌*◌, ◌/◌, ◌%◌, ◌≡◌, refl, arith, List, [], ◌∷◌, Option, none, some, ◌>>=◌, String,
  Bool, true, ◌&&◌, ltb, leb, if◌then◌else◌, length, take, map,
}
use elliptics_go.Base.Text.{concat, show_ℤ}
use elliptics_go.Wire.{DnetRawId}
use elliptics_go.Wire.Address.{CDnetAddr}
use elliptics_go.Wire.Texts.{addr_string}
use elliptics_go.Stat.Types.{RawAddr, AddressBackend}
use elliptics_go.Stat.Address.{dnet_addr}

-- `addr_size` is DNET_ADDR_SIZE, `tmp` what dnet_addr_alloc gives, and `text_of` dnet_addr_string.
module _ (addr_size : ℕ) (tmp : CDnetAddr) (text_of : CDnetAddr → String) where
  unfoldable pub raw_addr_string : RawAddr → String
  unfolding addr_string
  raw_addr_string a = addr_string addr_size tmp text_of (dnet_addr a)

  unfoldable pub address_backend_string : AddressBackend → String
  unfolding raw_addr_string
  address_backend_string ab =
      concat ("ab: address: " ∷ raw_addr_string ab.addr ∷ ", backend: " ∷ show_ℤ ab.backend ∷ [])

abbrev text_at : List String → ℕ → String
text_at [] n = ""
text_at (t ∷ ts) zero = t
text_at (t ∷ ts) (suc n) = text_at ts n

unfoldable pub hex_digit : ℕ → String
hex_digit n =
    text_at
      ("0" ∷ "1" ∷ "2" ∷ "3" ∷ "4" ∷ "5" ∷ "6" ∷ "7" ∷ "8" ∷ "9" ∷ "a" ∷ "b" ∷ "c" ∷ "d" ∷ "e" ∷ "f"
        ∷ [])
      n

-- The digits of hex.EncodeToString.
unfoldable pub hex_digits : List ℕ → List String
hex_digits [] = []
hex_digits (b ∷ bs) = hex_digit (b / 16) ∷ hex_digit (b % 16) ∷ hex_digits bs

-- hex.EncodeToString(id)[:12]; `none` is the panic on a shorter text.
unfoldable pub short_id : List ℕ → Option String
short_id id =
    let digits = hex_digits id in
    if ltb (length digits) 12 then none else some (concat (take 12 digits))

unfoldable pub short_ids : List DnetRawId → Option (List String)
short_ids [] = some []
short_ids (i ∷ ids) = do t ← short_id i.id; ts ← short_ids ids; some (t ∷ ts)

-- strings.Join
unfoldable pub join : String → List String → String
join sep [] = ""
join sep (t ∷ []) = t
join sep (t ∷ s ∷ ts) = concat (t ∷ sep ∷ join sep (s ∷ ts) ∷ [])

-- IDString, of the identifiers of a backend
unfoldable pub id_string : List DnetRawId → Option String
id_string ids = do tmp ← short_ids ids; some (join " " tmp)

abbrev pub all_long : List DnetRawId → Bool
all_long [] = true
all_long (i ∷ ids) = leb 6 (length i.id) && all_long ids

abbrev pub six_bytes : DnetRawId → String
six_bytes i = concat (hex_digits (take 6 i.id))

length-hex_digits : (bs : List ℕ) → length (hex_digits bs) ≡ 2 * length bs
unfolding hex_digits
length-hex_digits [] = refl
length-hex_digits (b ∷ bs) = omega (arith, length-hex_digits bs)

take-hex_digits : (bs : List ℕ) → take 12 (hex_digits bs) ≡ hex_digits (take 6 bs)
unfolding hex_digits
take-hex_digits [] = refl
take-hex_digits (a ∷ []) = refl
take-hex_digits (a ∷ b ∷ []) = refl
take-hex_digits (a ∷ b ∷ c ∷ []) = refl
take-hex_digits (a ∷ b ∷ c ∷ d ∷ []) = refl
take-hex_digits (a ∷ b ∷ c ∷ d ∷ e ∷ []) = refl
take-hex_digits (a ∷ b ∷ c ∷ d ∷ e ∷ f ∷ bs) = refl

short_id_lem :
    (i : DnetRawId) → short_id i.id ≡ (if leb 6 (length i.id) then some (six_bytes i) else none)
unfolding short_id
short_id_lem i = rw (take-hex_digits i.id) (ground (arith, length-hex_digits i.id))

short_ids_lem :
    (ids : List DnetRawId)
    → short_ids ids ≡ (if all_long ids then some (map six_bytes ids) else none)
unfolding short_ids
short_ids_lem [] = refl
short_ids_lem (i ∷ ids) = ground (arith, short_id_lem i, short_ids_lem ids)

-- IDString panics exactly where an identifier has fewer than six bytes; else its text is that of the
-- first six bytes of each identifier in hexadecimal, in order, with spaces between.
pub id_string_outcomes :
    (ids : List DnetRawId)
    → id_string ids ≡ (if all_long ids then some (join " " (map six_bytes ids)) else none)
unfolding id_string
id_string_outcomes ids = ground (arith, short_ids_lem ids)
