-- ===== src/Wire/RoundTrip.antt =====
-- What survives the crossing between Go and C.
use elliptics_go.Base.{
  ℕ, zero, suc, ◌<◌, ◌≤◌, ◌^◌, ◌%◌, ◌≡◌, ◌≢◌, refl, List, [], ◌∷◌, ◌++◌, length, take, drop, arith,
  ap, ltb, Bool-cases, inl, inr, ◌∙◌,
}
use elliptics_go.Base.Int.{◌+ℤ◌, scale}
use elliptics_go.Wire.Address.{CDnetAddr, DnetAddr, new_dnet_addr, c_addr}
use elliptics_go.Wire.Attributes.{CDnetIoAttr, new_dnet_io_attr}
use elliptics_go.Wire.Time.{unix}

take-take_append : (n : ℕ) (xs ys : List ℕ) → n ≤ length xs → take n (take n xs ++ ys) ≡ take n xs
take-take_append zero xs ys h = refl
take-take_append (suc n) [] ys h = absurd (omega arith)
take-take_append (suc n) (x ∷ xs) ys h = ap (◌∷◌ x) (take-take_append n xs ys (omega arith))

take-long : (n : ℕ) (xs : List ℕ) → length xs ≤ n → take (length xs) xs ≡ take n xs
take-long zero [] h = refl
take-long (suc n) [] h = refl
take-long zero (x ∷ xs) h = absurd (omega arith)
take-long (suc n) (x ∷ xs) h = ap (◌∷◌ x) (take-long n xs (omega arith))

-- An address that is written to a C structure and read again is the address, cut to the size of
-- the C array, whatever the structure held before. The size and the family fit 16 bits.
pub new_dnet_addr-c_addr :
    (addr_size : ℕ) (a : DnetAddr) (tmp : CDnetAddr)
    → addr_size < 2 ^ 16
    → a.family < 2 ^ 16
    → new_dnet_addr (c_addr addr_size a tmp)
      ≡ record { addr = take addr_size a.addr; family = a.family }
unfolding new_dnet_addr c_addr
new_dnet_addr-c_addr addr_size a tmp h k =
    let fam : a.family % 2 ^ 16 ≡ a.family = omega arith in
    elim (Bool-cases (ltb addr_size (length a.addr))) [
      | inl long ↦
          let len : addr_size % 2 ^ 16 ≡ addr_size = omega arith in
          rw (long, fam, len)
            (ap (λ bs. record { addr = bs; family = a.family })
              (take-take_append addr_size a.addr (drop addr_size tmp.addr) (ground arith)))
      | inr short ↦
          let fits : length a.addr ≤ addr_size = ground arith in
          let len : length a.addr % 2 ^ 16 ≡ length a.addr = omega arith in
          rw (short, fam, len)
            (ap (λ bs. record { addr = bs; family = a.family })
              (take-take_append (length a.addr) a.addr (drop (length a.addr) tmp.addr) (omega arith)
                ∙ take-long addr_size a.addr fits))
    ]

-- Reading an attribute takes the seconds for the nanoseconds: whenever the two differ, the time is
-- another one than time.Unix gives for the two fields.
pub new_dnet_io_attr-timestamp :
    (id_size : ℕ) (io : CDnetIoAttr)
    → io.timestamp.tsec ≢ io.timestamp.tnsec
    → (new_dnet_io_attr id_size io).timestamp ≢ unix io.timestamp.tsec io.timestamp.tnsec
unfolding new_dnet_io_attr unix scale ◌+ℤ◌
new_dnet_io_attr-timestamp id_size io h e = ground arith
