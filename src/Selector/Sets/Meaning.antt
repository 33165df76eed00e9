-- ===== src/Selector/Sets/Meaning.antt =====
-- What a single selector asks of a request, read off its kind.
use hypergate_engine.Prelude.{
  Bool, true, false, ◌&&◌, not, List, [], ◌++◌, Option, none, some, if◌then◌else◌, ◌==◌, nat_eq,
  list_eq, any, length, ltb,
}
use hypergate_engine.Prelude.Text.{Str, lit, has_suffix, cut}
use hypergate_engine.Net.{Addr, contains, addr_eq, is_valid}
use hypergate_engine.Identity.Workload.{Workload, is_pod}
use hypergate_engine.Selector.Kinds.{Kind}
use hypergate_engine.Selector.Parse.{Selector}
use hypergate_engine.Selector.Sets.{label_matches}

abbrev pub of_pod : (Workload → Bool) → Option Workload → Bool
of_pod p none = false
of_pod p (some w) = is_pod (some w) && p w

abbrev pub source_of_kind : Kind → Selector → Addr → Option Workload → Bool → Bool
source_of_kind Kind.any sel a w ext = true
source_of_kind Kind.ip sel a w ext = is_valid a && a == sel.addr
source_of_kind Kind.cidr sel a w ext = is_valid a && contains sel.prefix a
source_of_kind Kind.host sel a w ext = false
source_of_kind Kind.external sel a none ext = ext
source_of_kind Kind.external sel a (some w) ext = false
source_of_kind Kind.service sel a w ext = of_pod (λ p. any (λ svc. svc == sel.value) p.services) w
source_of_kind Kind.namespace sel a w ext = of_pod (λ p. p.namespace == sel.value) w
source_of_kind Kind.sa sel a w ext =
    of_pod (λ p. p.namespace ++ lit "/" ++ p.service_account == sel.value) w
source_of_kind Kind.spiffe sel a w ext = of_pod (λ p. p.spiffe_id == lit "spiffe:" ++ sel.value) w
source_of_kind Kind.labels sel a w ext =
    of_pod (label_matches (record { namespace = sel.label_ns; kv = sel.label_kv })) w

-- The caller satisfies the selector.
unfoldable pub selects_source : Selector → Addr → Option Workload → Bool → Bool
unfolding is_pod
selects_source sel a w ext = source_of_kind sel.kind sel a w ext

abbrev pub host_selected : Selector → Str → Bool
host_selected sel host =
    if sel.wildcard
    then ltb (length sel.host) (length host) && has_suffix host sel.host
    else host == sel.host

abbrev pub destination_of_kind : Kind → Selector → Addr → Str → List Str → Bool
destination_of_kind Kind.any sel a host services = true
destination_of_kind Kind.ip sel a host services = is_valid a && a == sel.addr
destination_of_kind Kind.cidr sel a host services = is_valid a && contains sel.prefix a
destination_of_kind Kind.host sel a host services = not (host == []) && host_selected sel host
destination_of_kind Kind.service sel a host services = any (λ svc. svc == sel.value) services
destination_of_kind Kind.namespace sel a host services =
    any (λ svc. (cut b'/' svc).0 == sel.value) services
destination_of_kind _ sel a host services = false

-- The target satisfies the selector.
unfoldable pub selects_destination : Selector → Addr → Str → List Str → Bool
selects_destination sel a host services = destination_of_kind sel.kind sel a host services
