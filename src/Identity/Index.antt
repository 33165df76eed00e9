-- ===== src/Identity/Index.antt =====
-- The engine's copy of the identity map (Index of internal/identity/index.go). A pointer to a
-- Service is the Service with the number of the update that stored it, so that `==` on pointers is
-- `==` on these numbers. The time of the last update is left out.
pub mod Laws
use hypergate_engine.Prelude.{
  ℕ, zero, suc, ◌+◌, Bool, true, false, ◌&&◌, ◌||◌, not, List, [], ◌∷◌, ◌++◌, Option, none, some,
  if◌then◌else◌, ◌==◌, nat_eq, list_eq, length, is_some,
}
use hypergate_engine.Prelude.Text.{Str, lit, trim_suffix, cut, contains_byte}
use hypergate_engine.Prelude.Maps.{Map, lookup, insert, delete}
use hypergate_engine.Net.{Addr, unmap, addr_eq, is_valid, invalid}
use hypergate_engine.Identity.Workload.{Kind, Workload, Service, key}

-- A stored Service and the identity of its pointer.
pub record ServiceRef : Type 0 where
  pub id : ℕ
  pub service : Service

pub record Index : Type 0 where
  pub workloads : Map Addr Workload
  pub services : Map Str ServiceRef
  pub by_cluster_ip : Map Addr ServiceRef
  pub workload_versions : Map Str Str
  pub service_versions : Map Str Str
  pub workloads_synced : Bool
  pub services_synced : Bool
  -- the next pointer
  pub next_id : ℕ

abbrev pub new_index : Index
new_index = record {
  workloads = [];
  services = [];
  by_cluster_ip = [];
  workload_versions = [];
  service_versions = [];
  workloads_synced = false;
  services_synced = false;
  next_id = 0;
}

-- `none` is the nil Index of an engine without identity.
unfoldable pub lookup_workload : Option Index → Addr → Option Workload
lookup_workload none ip = none
lookup_workload (some x) ip = if not (is_valid ip) then none else lookup (unmap ip) x.workloads

unfoldable pub service_by_cluster_ip : Option Index → Addr → Option ServiceRef
service_by_cluster_ip none ip = none
service_by_cluster_ip (some x) ip =
    if not (is_valid ip) then none else lookup (unmap ip) x.by_cluster_ip

unfoldable pub service : Option Index → Str → Str → Option ServiceRef
service none namespace name = none
service (some x) namespace name = lookup (namespace ++ lit "/" ++ name) x.services

unfoldable pub synced : Option Index → Bool
synced none = false
synced (some x) = x.workloads_synced && x.services_synced

-- The Service that a cluster-local host name means.
unfoldable pub service_from_host : Option Index → Str → Option ServiceRef
unfolding service
service_from_host none host = none
service_from_host (some x) host =
    let h = trim_suffix (trim_suffix host (lit ".cluster.local")) (lit ".svc") in
    let (name, ns, found) = cut b'.' h in
    if host == []
    then none
    else if not found || name == [] || ns == [] || contains_byte b'.' ns
    then none
    else service (some x) ns name

-- The resources of the identity stream, decoded.
pub record Versioned {ℓ} (T : Type ℓ) : Type ℓ where
  pub res : T
  pub version : Str

module _ (parse_addr : Str → Option Addr) where
  abbrev drop_workload : Str → Option Addr → Map Addr Workload → Map Addr Workload
  drop_workload name none m = m
  drop_workload name (some ip) m = delete (unmap ip) m

  unfoldable pub remove_workloads : List Str → Index → Index
  remove_workloads [] x = x
  remove_workloads (name ∷ names) x = remove_workloads names (record x {
    workloads = drop_workload name (parse_addr name) x.workloads;
    workload_versions = delete name x.workload_versions;
  })

  unfoldable pub store_workloads : Map Str (Versioned Workload) → Index → Index
  store_workloads [] x = x
  store_workloads ((name, v) ∷ rest) x = store_workloads rest (
      if not (is_valid v.res.ip) then x else record x {
        workloads = insert v.res.ip v.res x.workloads;
        workload_versions = insert name v.version x.workload_versions;
      })

  -- applyWorkloads, on workloads that workloadFromProto decoded.
  unfoldable pub apply_workloads : Map Str (Versioned Workload) → List Str → Index → Index
  unfolding remove_workloads store_workloads
  apply_workloads updated removed x =
      let y = store_workloads updated (remove_workloads removed x) in
      record y { workloads_synced = true }

abbrev is_ref : ℕ → Option ServiceRef → Bool
is_ref id none = false
is_ref id (some r) = r.id == id

-- Only the entries that still point to this Service go.
unfoldable pub drop_ips : ℕ → List Addr → Map Addr ServiceRef → Map Addr ServiceRef
drop_ips id [] m = m
drop_ips id (ip ∷ ips) m = drop_ips id ips (if is_ref id (lookup ip m) then delete ip m else m)

abbrev drop_found : Str → Option ServiceRef → Index → Index
drop_found name none x = x
drop_found name (some old) x = record x {
  by_cluster_ip = drop_ips old.id old.service.cluster_ips x.by_cluster_ip;
  services = delete name x.services;
}

unfoldable pub drop_service_locked : Str → Index → Index
unfolding drop_ips
drop_service_locked name x = drop_found name (lookup name x.services) x

unfoldable pub remove_services : List Str → Index → Index
unfolding drop_service_locked
remove_services [] x = x
remove_services (name ∷ names) x =
    let y = drop_service_locked name x in
    remove_services names (record y { service_versions = delete name y.service_versions })

unfoldable pub own_ips : ServiceRef → List Addr → Map Addr ServiceRef → Map Addr ServiceRef
own_ips r [] m = m
own_ips r (ip ∷ ips) m = own_ips r ips (insert ip r m)

unfoldable pub store_service : Str → Versioned Service → Index → Index
unfolding drop_service_locked own_ips
store_service name v x =
    let y = drop_service_locked name x in
    let r : ServiceRef = record { id = y.next_id; service = v.res } in
    record y {
      services = insert name r y.services;
      by_cluster_ip = own_ips r v.res.cluster_ips y.by_cluster_ip;
      service_versions = insert name v.version y.service_versions;
      next_id = suc y.next_id;
    }

unfoldable pub store_services : Map Str (Versioned Service) → Index → Index
unfolding store_service
store_services [] x = x
store_services ((name, v) ∷ rest) x = store_services rest (store_service name v x)

-- applyServices, on Services that serviceFromProto decoded.
unfoldable pub apply_services : Map Str (Versioned Service) → List Str → Index → Index
unfolding remove_services store_services
apply_services updated removed x =
    let y = store_services updated (remove_services removed x) in
    record y { services_synced = true }
