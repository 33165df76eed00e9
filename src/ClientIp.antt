-- ===== src/ClientIp.antt =====
-- The address of the client (internal/clientip/clientip.go).
pub mod Trust
use hypergate_engine.Prelude.{
  ℕ, zero, suc, ◌+◌, ◌-◌, Bool, true, false, ◌&&◌, ◌||◌, not, List, [], ◌∷◌, ◌++◌, Option, none,
  some, if◌then◌else◌, ◌==◌, nat_eq, list_eq, length, get_elem?, map, ℤ, pos, negsuc,
}
use hypergate_engine.Net.{split_host_port}
use hypergate_engine.Prelude.Text.{
  Str, trim_space, cut, cut_last, split, contains_byte, trim_prefix, trim_suffix, lit,
}

abbrev host_or : Option (Str × Str) → Str → Str
host_or none addr = trim_suffix (trim_prefix addr (lit "[")) (lit "]")
host_or (some (host, port)) addr = host

-- An address without its port and the brackets of IPv6.
unfoldable pub strip_port : Str → Str
strip_port s =
    let addr = trim_space s in if addr == [] then [] else host_or (split_host_port addr) addr

-- The entries that are not empty, without ports.
unfoldable pub entries : List Str → List Str
entries [] = []
entries (p ∷ ps) =
    let rest = entries ps in let e = strip_port (trim_space p) in if e == [] then rest else e ∷ rest

unfoldable pub split_xff : Str → List Str
unfolding entries
split_xff xff = if xff == [] then [] else entries (split b',' xff)

abbrev pub last? : List Str → Option Str
last? [] = none
last? (x ∷ []) = some x
last? (x ∷ y ∷ xs) = last? (y ∷ xs)

abbrev ends_with : Str → Option Str → Bool
ends_with peer none = false
ends_with peer (some e) = e == peer

-- The peer is appended unless Envoy has done so.
unfoldable pub with_peer : List Str → Str → List Str
with_peer chain peer =
    if peer == [] then chain else if ends_with peer (last? chain) then chain else chain ++ peer ∷ []

abbrev text_of : Option Str → Str
text_of none = []
text_of (some s) = s

-- The entry `hops` positions from the right, or the first one of a shorter chain. Subtraction stops
-- at 0, as the code's own test on a negative index makes it.
unfoldable pub pick : List Str → ℕ → Str
pick chain hops = text_of (get_elem? chain (length chain - 1 - hops))

abbrev pub hops_of : ℤ → ℕ
hops_of (pos n) = n
hops_of (negsuc n) = 0

unfoldable pub resolve : Str → Str → ℤ → Str
unfolding with_peer pick
resolve xff peer trusted_hops =
    pick (with_peer (split_xff xff) (strip_port peer)) (hops_of trusted_hops)
