-- ===== src/Net/Addr.antt =====
-- What the program uses of net and net/netip to read IP addresses: ParseAddr, ParseIP and To4. Of
-- their errors the program sees only that there is one: they are `none` here.
pub mod Free
pub mod Sizes
pub mod Cidr
use hegel.Base.{
  ℕ, zero, suc, ◌+◌, ◌-◌, ◌*◌, ◌/◌, ◌%◌, Bool, true, false, not, ◌&&◌, ◌||◌, Option, none, some,
  List, [], ◌∷◌, ◌++◌, length, take, drop, Text, text_eq, is_some, ltb, leb, ◌==◌, if◌then◌else◌,
}
use hegel.Net.{index_byte}

-- An address of 4 bytes, or one of 16 bytes and a zone.
pub data Addr : Type 0 where
  v4 : List ℕ → Addr
  v6 : List ℕ → Text → Addr

infixl 5 ◌>>=◌
abbrev pub ◌>>=◌ {ℓ κ} : {A : Type ℓ} {B : Type κ} → Option A → (A → Option B) → Option B
none >>= f = none
some a >>= f = f a

abbrev pub is_nil {ℓ} : {A : Type ℓ} → List A → Bool
is_nil [] = true
is_nil (x ∷ xs) = false

abbrev is_digit : ℕ → Bool
is_digit c = leb b'0' c && leb c b'9'

-- The state of the loop of parseIPv4Fields. `dig_len` is 0 exactly at the start and behind a dot.
pub record Octets : Type 0 where
  pub val : ℕ
  pub dig_len : ℕ
  pub fields : List ℕ

octet_digit : Octets → ℕ → Option Octets
octet_digit o d =
    if (o.dig_len == 1 && o.val == 0) || ltb 255 (o.val * 10 + d)
    then none
    else some (record { val = o.val * 10 + d; dig_len = suc o.dig_len; fields = o.fields })

octet_dot : Octets → Bool → Option Octets
octet_dot o last =
    if o.dig_len == 0 || (last || length o.fields == 3)
    then none
    else some (record { val = 0; dig_len = 0; fields = o.fields ++ o.val ∷ [] })

-- One round; `last` says that no byte follows.
octet_step : Octets → ℕ → Bool → Option Octets
unfolding octet_digit octet_dot
octet_step o c last =
    if is_digit c then octet_digit o (c - b'0') else if c == b'.' then octet_dot o last else none

octets : Octets → Text → Option (List ℕ)
octets o [] = if ltb (length o.fields) 3 then none else some (o.fields ++ o.val ∷ [])
octets o (c ∷ s) = do o' ← octet_step o c (is_nil s); octets o' s

pub parse_ipv4_fields : Text → Option (List ℕ)
unfolding octets octet_step
parse_ipv4_fields s = octets (record { val = 0; dig_len = 0; fields = [] }) s

hex_value : ℕ → Option ℕ
hex_value c =
    if is_digit c
    then some (c - b'0')
    else if leb b'a' c && leb c b'f'
    then some (c - b'a' + 10)
    else if leb b'A' c && leb c b'F'
    then some (c - b'A' + 10)
    else none

-- One more digit, unless there are four already or the value is too large.
hex_step : ℕ → ℕ → ℕ → Option ℕ
hex_step acc off d = if ltb 3 off || ltb 65535 (acc * 16 + d) then none else some (acc * 16 + d)

-- The hex number at the front of a group: its value, its length and what follows it.
hex_run : ℕ → ℕ → Text → Option (ℕ × ℕ × Text)
unfolding hex_step
hex_run acc off [] = some (acc, off, [])
hex_run acc off (c ∷ s) = elim (hex_value c) [
  | none ↦ some (acc, off, c ∷ s)
  | some d ↦ hex_step acc off d >>= λ acc'. hex_run acc' (suc off) s
]

-- How a round of the loop of parseIPv6 ends: the position of the ellipsis, the bytes so far, and what
-- is left of the text.
pub data Round : Type 0 where
  stop : Option ℕ → List ℕ → Text → Round
  more : Option ℕ → List ℕ → Text → Round

find_ellipsis : Option ℕ → List ℕ → Text → Option Round
find_ellipsis (some e) ip s = none
find_ellipsis none ip [] = some (stop (some (length ip)) ip [])
find_ellipsis none ip (c ∷ s) = some (more (some (length ip)) ip (c ∷ s))

behind_colon : Option ℕ → List ℕ → Text → Option Round
unfolding find_ellipsis
behind_colon e ip [] = none
behind_colon e ip (c ∷ s) = if c == b':' then find_ellipsis e ip s else some (more e ip (c ∷ s))

-- A trailing IPv4 address, which is the whole rest of the text.
trailing : Option ℕ → List ℕ → Text → Option Round
unfolding parse_ipv4_fields
trailing e ip s =
    if (not (is_some e) && not (length ip == 12)) || ltb 16 (length ip + 4)
    then none
    else do f ← parse_ipv4_fields s; some (stop e (ip ++ f) [])

behind_group : Option ℕ → List ℕ → Text → ℕ → Text → Option Round
unfolding trailing behind_colon
behind_group e ip s acc [] = some (stop e (ip ++ acc / 256 ∷ acc % 256 ∷ []) [])
behind_group e ip s acc (c ∷ rest) =
    if c == b'.'
    then trailing e ip s
    else if c == b':'
    then behind_colon e (ip ++ acc / 256 ∷ acc % 256 ∷ []) rest
    else none

round : Option ℕ → List ℕ → Text → Option Round
unfolding hex_run behind_group hex_value
round e ip s = do
  (acc, off, rest) ← hex_run 0 0 s
  if off == 0 then none else behind_group e ip s acc rest

-- What the loop has when it is left.
abbrev pub Loop : Type 0
Loop = Option ℕ × List ℕ × Text

abbrev pub go_on : (Option ℕ → List ℕ → Text → Option Loop) → Round → Option Loop
go_on loop (stop e ip s) = some (e, ip, s)
go_on loop (more e ip s) = loop e ip s

-- `for i < 16`: at most eight rounds, of two bytes each
pub groups : ℕ → Option ℕ → List ℕ → Text → Option Loop
unfolding round
groups zero e ip s = some (e, ip, s)
groups (suc n) e ip s = do r ← round e ip s; go_on (λ e' ip' s'. groups n e' ip' s') r

abbrev zeros : ℕ → List ℕ
zeros zero = []
zeros (suc n) = 0 ∷ zeros n

pub expand : Option ℕ → List ℕ → Option (List ℕ)
expand none ip = if ltb (length ip) 16 then none else some ip
expand (some e) ip =
    if ltb (length ip) 16 then some (take e ip ++ (zeros (16 - length ip) ++ drop e ip)) else none

finish : Loop → Option (List ℕ)
unfolding expand
finish (e, ip, s) = if is_nil s then expand e ip else none

from_groups : Option ℕ → Text → Option (List ℕ)
unfolding groups finish
from_groups e s = do r ← groups 8 e [] s; finish r

-- parseIPv6, of the text before the zone
ipv6_bytes : Text → Option (List ℕ)
unfolding from_groups
ipv6_bytes [] = from_groups none []
ipv6_bytes (a ∷ []) = from_groups none (a ∷ [])
ipv6_bytes (a ∷ b ∷ s) =
    if a == b':' && b == b':'
    then (if is_nil s then some (zeros 16) else from_groups (some 0) s)
    else from_groups none (a ∷ b ∷ s)

with_zone : Text → Text → Option Addr
unfolding ipv6_bytes
with_zone zone s = do ip ← ipv6_bytes s; some (v6 ip zone)

parse_ipv6 : Text → Option ℕ → Option Addr
unfolding with_zone
parse_ipv6 s none = with_zone [] s
parse_ipv6 s (some i) =
    if is_nil (drop (suc i) s) then none else with_zone (drop (suc i) s) (take i s)

parse_ipv4 : Text → Option Addr
parse_ipv4 s = do fields ← parse_ipv4_fields s; some (v4 fields)

-- The first dot, colon or percent sign decides.
by_first : Text → Text → Option Addr
unfolding parse_ipv4 parse_ipv6
by_first s [] = none
by_first s (c ∷ rest) =
    let later = by_first s rest in
    if c == b'.'
    then parse_ipv4 s
    else if c == b':'
    then parse_ipv6 s (index_byte s b'%')
    else if c == b'%'
    then none
    else later

-- netip.ParseAddr
unfoldable pub parse_addr : Text → Option Addr
unfolding by_first
parse_addr s = by_first s s

-- Addr.Zone
unfoldable pub zone_of : Addr → Text
zone_of (v4 fields) = []
zone_of (v6 ip zone) = zone

abbrev v4_in_v6_prefix : List ℕ
v4_in_v6_prefix = zeros 10 ++ 255 ∷ 255 ∷ []

-- Addr.As16
unfoldable pub as16 : Addr → List ℕ
as16 (v4 fields) = v4_in_v6_prefix ++ fields
as16 (v6 ip zone) = ip

-- The two rules that ParseIP and ParseCIDR share: an address, and no zone.
without_zone : Option Addr → Option Addr
unfolding zone_of
without_zone o = do a ← o; if is_nil (zone_of a) then some a else none

-- net.ParseIP: the 16 bytes of the address
unfoldable pub parse_ip : Text → Option (List ℕ)
unfolding without_zone as16
parse_ip s = do a ← without_zone (parse_addr s); some (as16 a)

-- ip.To4() != nil
unfoldable pub is_to4 : List ℕ → Bool
is_to4 ip = text_eq (take 12 ip) v4_in_v6_prefix
