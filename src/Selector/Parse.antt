-- ===== src/Selector/Parse.antt =====
-- Parsing one `prefix:value` reference (Parse of internal/selector/selector.go). The text forms of
-- addresses and prefixes are those of net/netip, taken as a parameter.
use hypergate_engine.Prelude.{
  ℕ, ◌-◌, ◌*◌, ◌/◌, ◌^◌, Bool, true, false, ◌||◌, not, [], ◌++◌, Option, none, some, if◌then◌else◌,
  ◌==◌, nat_eq, list_eq, all, ltb,
}
use hypergate_engine.Prelude.Text.{
  Str, lit, to_lower, trim_space, trim_suffix, cut, cut_prefix, split, contains_any,
}
use hypergate_engine.Prelude.Maps.{Map}
use hypergate_engine.Net.{Addr, invalid, v4, v6, Prefix, unmap, addr_eq, is_4in6}
use hypergate_engine.Selector.Kinds.{Kind, Side, info, kind_by_name, disallowed}
use hypergate_engine.Selector.Validate.{
  validate_host_label, validate_dns_label, validate_dns_subdomain, validate_namespaced_name,
  validate_spiffe, parse_labels,
}

-- netip.ParseAddr, netip.ParsePrefix, netip.ParseAddrPort (its address) and the String methods.
pub record Netip : Type 0 where
  pub parse_addr : Str → Option Addr
  pub parse_prefix : Str → Option Prefix
  pub parse_addr_port : Str → Option Addr
  pub addr_string : Addr → Str
  pub prefix_string : Prefix → Str

pub record Selector : Type 0 where
  pub kind : Kind
  pub value : Str
  pub addr : Addr
  pub prefix : Prefix
  pub host : Str
  pub wildcard : Bool
  pub label_ns : Str
  pub label_kv : Map Str Str

abbrev pub zero_prefix : Prefix
zero_prefix = record { addr = invalid; bits = 0 }

abbrev pub selector_of : Kind → Str → Selector
selector_of kind value = record {
  kind = kind;
  value = value;
  addr = invalid;
  prefix = zero_prefix;
  host = [];
  wildcard = false;
  label_ns = [];
  label_kv = [];
}

-- The canonical form.
unfoldable pub selector_string : Selector → Str
unfolding info
selector_string s =
    if s.value == [] then (info s.kind).name else (info s.kind).name ++ lit ":" ++ s.value

abbrev zone : Addr → Str
zone (v6 n z) = z
zone _ = []

-- Masked: the bits past the prefix length are zero.
abbrev masked : Addr → ℕ → Addr
masked (v4 n) bits = v4 (n / 2 ^ (32 - bits) * 2 ^ (32 - bits))
masked (v6 n z) bits = v6 (n / 2 ^ (128 - bits) * 2 ^ (128 - bits)) z
masked invalid bits = invalid

module _ (net : Netip) where
  unfoldable pub parse_ip : Selector → Str → Option Selector
  parse_ip s v = elim (net.parse_addr v) [
    | none ↦ none
    | some a ↦
        if not (zone a == [])
        then none
        else some (record s { addr = unmap a; value = net.addr_string (unmap a) })
  ]

  unfoldable pub parse_cidr : Selector → Str → Option Selector
  parse_cidr s v = elim (net.parse_prefix v) [
    | none ↦ none
    | some p ↦
        let short : Prefix = record { addr = unmap p.addr; bits = p.bits - 96 } in
        if not (masked p.addr p.bits == p.addr)
        then none
        else if is_4in6 p.addr
        then if ltb p.bits 96
          then none
          else some (record s { prefix = short; value = net.prefix_string short })
        else some (record s { prefix = p; value = net.prefix_string p })
  ]

-- The host without a leading `*.`, and whether it had one.
abbrev wildcard_name : Str → Str × Bool
wildcard_name h = elim (cut_prefix (lit "*.") h) [ none ↦ (h, false) | some name ↦ (name, true) ]

unfoldable pub parse_host : Selector → Str → Option Selector
unfolding validate_host_label
parse_host s v =
    let h = trim_suffix (to_lower v) (lit ".") in
    let (name, wildcard) = wildcard_name h in
    if name == [] || contains_any name (lit "*:/")
    then none
    else if not (all validate_host_label (split b'.' name))
    then none
    else some (record s {
      wildcard = wildcard;
      host = if wildcard then lit "." ++ name else name;
      value = h;
    })

abbrev checked : Bool → Selector → Option Selector
checked true s = some s
checked false s = none

abbrev labelled : Selector → Option (Str × Map Str Str) → Option Selector
labelled s none = none
labelled s (some (ns, kv)) = some (record s { label_ns = ns; label_kv = kv })

module _ (net : Netip) where
  -- The switch on the kind. `any` and `external` take no value and do not come here.
  unfoldable pub parse_value : Kind → Str → Option Selector
  unfolding parse_ip parse_cidr parse_host validate_namespaced_name validate_dns_label
      validate_dns_subdomain validate_spiffe parse_labels
  parse_value Kind.ip v = parse_ip net (selector_of Kind.ip v) v
  parse_value Kind.cidr v = parse_cidr net (selector_of Kind.cidr v) v
  parse_value Kind.host v = parse_host (selector_of Kind.host v) v
  parse_value Kind.service v =
      checked (validate_namespaced_name v validate_dns_label) (selector_of Kind.service v)
  parse_value Kind.sa v =
      checked (validate_namespaced_name v validate_dns_subdomain) (selector_of Kind.sa v)
  parse_value Kind.namespace v = checked (validate_dns_label v) (selector_of Kind.namespace v)
  parse_value Kind.spiffe v = checked (validate_spiffe v) (selector_of Kind.spiffe v)
  parse_value Kind.labels v = labelled (selector_of Kind.labels v) (parse_labels v)
  parse_value Kind.any v = some (selector_of Kind.any v)
  parse_value Kind.external v = some (selector_of Kind.external v)

  unfoldable pub parse : Str → Side → Option Selector
  unfolding parse_value info disallowed
  parse raw side =
      let (name, value, has_value) = cut b':' (trim_space raw) in
      elim (kind_by_name name) [
        | none ↦ none
        | some kind ↦
            if disallowed kind side
            then none
            else if not (info kind).needs_value
            then if has_value then none else some (selector_of kind [])
            else if value == []
            then none
            else parse_value kind value
      ]
