-- ===== src/Net.antt =====
-- What the program uses of Go's package net, and internal/http/request.
pub mod HostPort
pub mod Addr
pub mod Samples
mod Tests
use hegel.Base.{
  ℕ, zero, suc, ◌+◌, Bool, true, false, Option, none, some, List, [], ◌∷◌, ◌++◌, length, take, drop,
  get_or, Text, bytes, String, is_some, ◌==◌, if◌then◌else◌,
}
use hegel.Errors.{GoError, text, Result, ok, err, ◌>>=◌}

-- strings.IndexByte
unfoldable pub index_byte : Text → ℕ → Option ℕ
index_byte [] c = none
index_byte (x ∷ xs) c =
    let rest = index_byte xs c in
    if x == c then some 0 else elim rest [ none ↦ none | some i ↦ some (suc i) ]

-- strings.LastIndexByte
unfoldable pub last_index_byte : Text → ℕ → Option ℕ
last_index_byte [] c = none
last_index_byte (x ∷ xs) c = elim (last_index_byte xs c) [
  | none ↦ if x == c then some 0 else none
  | some i ↦ some (suc i)
]

-- The message of a *net.AddrError. The program never looks at it.
addr_error {ℓ} : {A : Type ℓ} → String → Text → Result A
addr_error why addr = err (text (bytes "address " ++ (addr ++ (bytes ": " ++ bytes why))))

-- `switch end + 1`, and the checks behind it, for an address that begins with '['
bracketed : Text → ℕ → Option ℕ → Result (Text × Text)
bracketed hostport i none = addr_error "missing ']' in address" hostport
bracketed hostport i (some end) =
    if suc end == length hostport
    then addr_error "missing port in address" hostport
    else if suc end == i
    then (if is_some (index_byte (drop 1 hostport) b'[')
        then addr_error "unexpected '[' in address" hostport
        else if is_some (index_byte (drop (suc end) hostport) b']')
        then addr_error "unexpected ']' in address" hostport
        else ok (drop 1 (take end hostport), drop (suc i) hostport))
    else if get_or hostport (suc end) 0 == b':'
    then addr_error "too many colons in address" hostport
    else addr_error "missing port in address" hostport

plain : Text → ℕ → Result (Text × Text)
plain hostport i =
    if is_some (index_byte (take i hostport) b':')
    then addr_error "too many colons in address" hostport
    else if is_some (index_byte hostport b'[')
    then addr_error "unexpected '[' in address" hostport
    else if is_some (index_byte hostport b']')
    then addr_error "unexpected ']' in address" hostport
    else ok (take i hostport, drop (suc i) hostport)

starts_bracket : Text → Bool
starts_bracket [] = false
starts_bracket (x ∷ xs) = x == b'['

split_at : Text → Option ℕ → Result (Text × Text)
split_at hostport none = addr_error "missing port in address" hostport
split_at hostport (some i) =
    if starts_bracket hostport
    then bracketed hostport i (index_byte hostport b']')
    else plain hostport i

-- net.SplitHostPort: the host and the port. The port starts behind the last colon.
unfoldable pub split_host_port : Text → Result (Text × Text)
unfolding split_at bracketed plain starts_bracket addr_error
split_host_port hostport = split_at hostport (last_index_byte hostport b':')

-- net.JoinHostPort, by which the server writes the address of a peer
unfoldable pub join_host_port : Text → Text → Text
join_host_port host port =
    if is_some (index_byte host b':')
    then b'[' ∷ (host ++ (bytes "]:" ++ port))
    else host ++ (b':' ∷ port)

-- http.Header: the values of a key.
abbrev pub Header : Type 0
Header = Text → List Text

-- What the handlers read of an *http.Request.
pub record Request : Type 0 where
  pub remote_addr : Text

host_of : Result (Text × Text) → Text × Option GoError
host_of (ok (addr, port)) = (addr, none)
host_of (err e) = ([], some e)

-- RemoteAddrIP: the address, which is empty beside an error, and the error
unfoldable pub remote_addr_ip : Request → Text × Option GoError
unfolding host_of
remote_addr_ip r = host_of (split_host_port r.remote_addr)
