-- ===== src/Operator/Services.antt =====
-- Services, nodes and Cilium endpoints of the operator's index (UpsertService, DeleteService,
-- UpsertNode, DeleteNode, UpsertCiliumEndpoint and DeleteCiliumEndpoint of
-- hyper-operator/internal/identity/index.go).
pub mod Backing
use hypergate_engine.Prelude.{
  Bool, true, false, ◌||◌, List, [], ◌∷◌, Option, none, some, if◌then◌else◌, ◌==◌, nat_eq, list_eq,
}
use hypergate_engine.Prelude.Text.{Str}
use hypergate_engine.Prelude.Maps.{Map, lookup, insert, delete}
use hypergate_engine.Net.{addr_eq}
use hypergate_engine.Operator.{
  ServiceRef, ref_eq, Service, NodeRecord, CiliumRecord, Index, bump, collect_addrs, unique_addrs,
}
use hypergate_engine.Operator.Strings.{above}
use hypergate_engine.Operator.Ownership.{release, acquire}

abbrev forget_service : ServiceRef → Option Service → Index → Index
forget_service ref none x = x
forget_service ref (some old) x = record x {
  by_cluster_ip = release ref old.cluster_ips x.by_cluster_ip;
  services = delete ref x.services;
}

unfoldable pub remove_service_locked : ServiceRef → Index → Index
unfolding release lookup delete
remove_service_locked ref x = forget_service ref (lookup ref x.services) x

unfoldable pub upsert_service : Service → Index → Index
unfolding remove_service_locked acquire collect_addrs
upsert_service s x =
    let ref : ServiceRef = record { namespace = s.namespace; name = s.name } in
    let y = remove_service_locked ref x in
    let t : Service = record s { cluster_ips = unique_addrs s.cluster_ips } in
    bump (record y {
      services = insert ref t y.services;
      by_cluster_ip = acquire ref t.cluster_ips y.by_cluster_ip;
    })

unfoldable pub delete_service : Str → Str → Index → Index
unfolding remove_service_locked
delete_service namespace name x =
    bump (remove_service_locked (record { namespace = namespace; name = name }) x)

abbrev forget_node : Str → Option NodeRecord → Index → Index
forget_node name none x = x
forget_node name (some old) x = record x {
  node_ip = release name old.ips x.node_ip;
  nodes = delete name x.nodes;
}

unfoldable pub remove_node_locked : Str → Index → Index
unfolding release lookup delete
remove_node_locked name x = forget_node name (lookup name x.nodes) x

unfoldable pub upsert_node : NodeRecord → Index → Index
unfolding remove_node_locked acquire collect_addrs
upsert_node n x =
    let y = remove_node_locked n.name x in
    let m : NodeRecord = record n { ips = unique_addrs n.ips } in
    bump (record y { nodes = insert n.name m y.nodes; node_ip = acquire n.name m.ips y.node_ip })

unfoldable pub delete_node : Str → Index → Index
unfolding remove_node_locked
delete_node name x = bump (remove_node_locked name x)

-- sort.Strings.
unfoldable pub insert_sorted : Str → List Str → List Str
unfolding above
insert_sorted s [] = s ∷ []
insert_sorted s (t ∷ ts) =
    let rest = insert_sorted s ts in if above s t then t ∷ rest else s ∷ t ∷ ts

unfoldable pub sort_strings : List Str → List Str
unfolding insert_sorted
sort_strings [] = []
sort_strings (s ∷ ss) = insert_sorted s (sort_strings ss)

unfoldable pub upsert_cilium : CiliumRecord → Index → Index
unfolding sort_strings insert
upsert_cilium c x = bump (record x {
  cilium =
      insert (record { namespace = c.namespace; name = c.name })
        (record c { labels = sort_strings c.labels }) x.cilium;
})

unfoldable pub delete_cilium : Str → Str → Index → Index
unfolding delete
delete_cilium namespace name x =
    bump (record x { cilium = delete (record { namespace = namespace; name = name }) x.cilium })
