-- ===== src/Node.antt =====
-- elliptics/node.go: the node, through which the C library reaches the servers. What the C library
-- answers is an argument; the texts that C holds are the texts themselves, and their Free is left
-- out. Lists of remotes have fewer than 2^31 elements, as an int of C has to count them.
pub mod Remotes
use elliptics_go.Base.{
  ℕ, zero, suc, ◌+◌, ◌-◌, ◌^◌, eqb, List, [], ◌∷◌, ◌++◌, Option, none, some, ◌>>=◌, String, Bool,
  true, false, if◌then◌else◌, length, replicate,
}
use elliptics_go.Base.Int.{ℤ, pos, negsuc, to_int32}
use elliptics_go.Errors.{Error, text, Result, ok, err}

-- NewNode, with the pointer that C.new_node gives; `none` is a null pointer.
unfoldable pub new_node : Option ℕ → Result ℕ
new_node none = err (text "could not create node, please check stderr output")
new_node (some p) = ok p

-- What C is told of a node, without an answer.
pub data NodeTold : Type 0 where
  delete_node : NodeTold
  node_set_timeouts : ℤ → ℤ → NodeTold

-- Free
unfoldable pub free : List NodeTold → List NodeTold
free told = told ++ delete_node ∷ []

-- SetTimeouts, of ints that C cuts to 32 bits
unfoldable pub set_timeouts : ℤ → ℤ → List NodeTold → List NodeTold
set_timeouts wait_timeout check_timeout told =
    told ++ node_set_timeouts (to_int32 wait_timeout) (to_int32 check_timeout) ∷ []

-- What AddRemote and AddRemotes return where they fail.
pub data RemoteError : Type 0 where
  no_remotes : String → RemoteError
  errno : ℕ → RemoteError

-- if c_err < 0 { err = syscall.Errno(-c_err) }, where the least int of C is its own negation, and
-- syscall.Errno is a word of 64 bits.
unfoldable pub remote_error : ℤ → Option RemoteError
remote_error (pos n) = none
remote_error (negsuc n) = some (errno (if eqb n (2 ^ 31 - 1) then 2 ^ 64 - 2 ^ 31 else n + 1))

-- AddRemote. `add_one` is C.node_add_remote_one.
unfoldable pub add_remote : (String → ℤ) → String → Option RemoteError
unfolding remote_error
add_remote add_one addr = remote_error (add_one addr)

-- makeCharArray: null pointers.
unfoldable pub make_char_array : ℕ → List (Option String)
make_char_array size = replicate size none

-- setArrayString; `none` is a write past the array's end.
unfoldable pub set_array_string : List (Option String) → String → ℕ → Option (List (Option String))
set_array_string [] s n = none
set_array_string (x ∷ xs) s zero = some (some s ∷ xs)
set_array_string (x ∷ xs) s (suc n) = do ys ← set_array_string xs s n; some (x ∷ ys)

-- The loop of AddRemotes, from the i-th address on.
unfoldable pub fill_args : ℕ → List String → List (Option String) → Option (List (Option String))
fill_args i [] cargs = some cargs
fill_args i (s ∷ addrs) cargs = do
  cargs' ← set_array_string cargs s i
  fill_args (i + 1) addrs cargs'

-- AddRemotes, and what C was given. `add_array` is C.node_add_remote_array.
unfoldable pub add_remotes :
    (List (Option String) → ℕ → ℤ)
    → List String
    → Option (Option RemoteError × List (List (Option String)))
add_remotes add_array [] = some (some (no_remotes "list of remotes is empty"), [])
add_remotes add_array (a ∷ addrs) = do
  cargs ← fill_args 0 (a ∷ addrs) (make_char_array (length (a ∷ addrs)))
  some (remote_error (add_array cargs (length (a ∷ addrs))), cargs ∷ [])
