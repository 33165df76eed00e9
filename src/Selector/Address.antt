-- ===== src/Selector/Address.antt =====
-- Addresses and hosts as Envoy reports them (ParseAddr and NormalizeHost of
-- internal/selector/selector.go).
use hypergate_engine.Prelude.{[], none, some, if◌then◌else◌, ◌==◌, nat_eq, list_eq}
use hypergate_engine.Prelude.Text.{Str, lit, to_lower, trim_prefix, trim_suffix, trim_space}
use hypergate_engine.Net.{Addr, invalid, unmap, without_zone, split_host_port}
use hypergate_engine.Selector.Parse.{Netip}

unfoldable pub parse_addr : Netip → Str → Addr
parse_addr net s =
    let t = trim_space s in
    let bare = trim_suffix (trim_prefix t (lit "[")) (lit "]") in
    if t == [] then invalid else elim (net.parse_addr_port t) [
      | some a ↦ unmap (without_zone a)
      | none ↦ elim (net.parse_addr bare) [ none ↦ invalid | some a ↦ unmap (without_zone a) ]
    ]

unfoldable pub normalize_host : Str → Str
normalize_host authority =
    let h = trim_space authority in
    let host : Str = elim (split_host_port h) [
      | some (host, port) ↦ host
      | none ↦ trim_suffix (trim_prefix h (lit "[")) (lit "]")
    ] in
    if h == [] then [] else trim_suffix (to_lower host) (lit ".")
