-- ===== src/Operator/Frames.antt =====
-- What each operation of the operator's index leaves alone
-- (hyper-operator/internal/identity/index.go).
use hypergate_engine.Prelude.{
  [], some, ◌||◌, if◌then◌else◌, ◌==◌, ◌≡◌, refl, sym, subst, nat_eq, list_eq, Option-cases, inl,
  inr, if_ind, >>=-eq-some, some_inj,
}
use hypergate_engine.Prelude.Text.{Str}
use hypergate_engine.Prelude.Maps.{lookup}
use hypergate_engine.Net.{addr_eq}
use hypergate_engine.Operator.{
  ServiceRef, ref_eq, Service, PodRecord, SliceRecord, NodeRecord, Index, bump,
}
use hypergate_engine.Operator.Pods.{remove_pod_locked, store_pod, upsert_pod, delete_pod}
use hypergate_engine.Operator.Services.{
  remove_service_locked, upsert_service, delete_service, remove_node_locked, upsert_node,
  delete_node,
}
use hypergate_engine.Operator.Slices.{
  drop_refs, service_of, key_of, remove_slice_locked, store_slice, upsert_slice, delete_slice,
}

abbrev pub PodFrame : Index → Index → Type 0
PodFrame x y =
    y
    ≡ record x { pods = y.pods; claims = y.claims; generation = y.generation; changed = y.changed }

abbrev pub ServiceFrame : Index → Index → Type 0
ServiceFrame x y = y ≡ record x {
  services = y.services;
  by_cluster_ip = y.by_cluster_ip;
  generation = y.generation;
  changed = y.changed;
}

abbrev pub NodeFrame : Index → Index → Type 0
NodeFrame x y = y ≡ record x {
  nodes = y.nodes;
  node_ip = y.node_ip;
  generation = y.generation;
  changed = y.changed;
}

abbrev pub SliceFrame : Index → Index → Type 0
SliceFrame x y = y ≡ record x {
  slices = y.slices;
  pod_services = y.pod_services;
  ip_services = y.ip_services;
  generation = y.generation;
  changed = y.changed;
}

remove_pod_locked-frame : (uid : Str) (x : Index) → PodFrame x (remove_pod_locked uid x)
unfolding remove_pod_locked
remove_pod_locked-frame uid x = elim (Option-cases (lookup uid x.pods)) [
  | inl e ↦ rw e refl
  | inr (old, e) ↦ rw e refl
]

pub upsert_pod-frame : (p : PodRecord) (x : Index) → PodFrame x (upsert_pod p x)
unfolding upsert_pod store_pod remove_pod_locked
upsert_pod-frame p x = elim (Option-cases (lookup p.uid x.pods)) [
  | inl e ↦ rw e (if_ind (PodFrame x) (p.host_network || p.finished || p.uid == []) refl refl)
  | inr (old, e) ↦
      rw e (if_ind (PodFrame x) (p.host_network || p.finished || p.uid == []) refl refl)
]

pub delete_pod-frame : (uid : Str) (x : Index) → PodFrame x (delete_pod uid x)
unfolding delete_pod remove_pod_locked
delete_pod-frame uid x = elim (Option-cases (lookup uid x.pods)) [
  | inl e ↦ rw e refl
  | inr (old, e) ↦ rw e refl
]

pub upsert_service-frame : (s : Service) (x : Index) → ServiceFrame x (upsert_service s x)
unfolding upsert_service remove_service_locked
upsert_service-frame s x =
    elim (Option-cases (lookup (record { namespace = s.namespace; name = s.name }) x.services)) [
      | inl e ↦ rw e refl
      | inr (old, e) ↦ rw e refl
    ]

pub delete_service-frame :
    (namespace name : Str) (x : Index) → ServiceFrame x (delete_service namespace name x)
unfolding delete_service remove_service_locked
delete_service-frame namespace name x =
    elim (Option-cases (lookup (record { namespace = namespace; name = name }) x.services)) [
      | inl e ↦ rw e refl
      | inr (old, e) ↦ rw e refl
    ]

pub upsert_node-frame : (n : NodeRecord) (x : Index) → NodeFrame x (upsert_node n x)
unfolding upsert_node remove_node_locked
upsert_node-frame n x = elim (Option-cases (lookup n.name x.nodes)) [
  | inl e ↦ rw e refl
  | inr (old, e) ↦ rw e refl
]

pub delete_node-frame : (name : Str) (x : Index) → NodeFrame x (delete_node name x)
unfolding delete_node remove_node_locked
delete_node-frame name x = elim (Option-cases (lookup name x.nodes)) [
  | inl e ↦ rw e refl
  | inr (old, e) ↦ rw e refl
]

remove_slice_locked-frame :
    (key : ServiceRef) (x y : Index) → remove_slice_locked key x ≡ some y → SliceFrame x y
unfolding remove_slice_locked
remove_slice_locked-frame key x y h = elim (Option-cases (lookup key x.slices)) [
  | inl e ↦ subst (SliceFrame x) (some_inj (rw e at h)) refl
  | inr (old, e) ↦
      let (by_pod, _, k) =
        >>=-eq-some (drop_refs old.pod_uids (service_of old) x.pod_services) _ (rw e at h) in
      let (by_ip, _, l) = >>=-eq-some (drop_refs old.ips (service_of old) x.ip_services) _ k in
      subst (SliceFrame x) (some_inj l) refl
]

pub upsert_slice-frame :
    (s : SliceRecord) (x y : Index) → upsert_slice s x ≡ some y → SliceFrame x y
unfolding upsert_slice store_slice
upsert_slice-frame s x y h =
    let (z, e, k) = >>=-eq-some (remove_slice_locked (key_of s) x) _ h in
    let f = remove_slice_locked-frame (key_of s) x z e in
    subst (SliceFrame x) (some_inj k) (
      subst (λ w. SliceFrame x (if s.service == [] then bump w else bump (store_slice s w))) (sym f)
        (if_ind (SliceFrame x) (s.service == []) refl refl))

pub delete_slice-frame :
    (namespace name : Str) (x y : Index) → delete_slice namespace name x ≡ some y → SliceFrame x y
unfolding delete_slice
delete_slice-frame namespace name x y h =
    let key : ServiceRef = record { namespace = namespace; name = name } in
    let (z, e, k) = >>=-eq-some (remove_slice_locked key x) _ h in
    subst (SliceFrame x) (some_inj k)
      (subst (λ w. SliceFrame x (bump w)) (sym (remove_slice_locked-frame key x z e)) refl)
