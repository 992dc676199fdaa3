-- ===== src/Session/Located.antt =====
-- LookupBackend of elliptics/session.go: the server and the backend that hold a key in a group.
use elliptics_go.Base.{ℕ, [], ◌∷◌, Option, none, some, String}
use elliptics_go.Base.Int.{ℤ, pos, negsuc, to_int32}
use elliptics_go.Base.Text.{concat, show_ℕ, show_ℤ}
use elliptics_go.Errors.{Error, dnet}
use elliptics_go.Wire.Address.{CDnetAddr, DnetAddr, new_dnet_addr}

pub record Located : Type 0 where
  pub addr : Option DnetAddr
  pub backend_id : ℤ
  pub error : Option Error

-- What C.session_lookup_addr answers, and what it leaves in its two output arguments.
pub record Answer : Type 0 where
  pub code : ℤ
  pub caddr : CDnetAddr
  pub cbackend_id : ℤ

unfoldable pub lookup_failure : String → ℕ → ℤ → Error
lookup_failure key group_id code = dnet (record {
  code = code;
  flags = 0;
  message = concat (
      "could not lookup backend: key '"
      ∷ key
      ∷ "', group: "
      ∷ show_ℕ group_id
      ∷ ": "
      ∷ show_ℤ code
      ∷ []);
})

unfoldable pub located : String → ℕ → ℤ → Answer → Located
located key group_id (pos n) a = record {
  addr = some (new_dnet_addr a.caddr);
  backend_id = to_int32 a.cbackend_id;
  error = none;
}
located key group_id (negsuc n) a = record {
  addr = none;
  backend_id = negsuc 0;
  error = some (lookup_failure key group_id (negsuc n));
}

-- LookupBackend. `lookup_addr` is C.session_lookup_addr at the key and the group as an int of C.
unfoldable pub lookup_backend : (String → ℤ → Answer) → String → ℕ → Located
unfolding located
lookup_backend lookup_addr key group_id =
    let a = lookup_addr key (to_int32 (pos group_id)) in located key group_id a.code a
