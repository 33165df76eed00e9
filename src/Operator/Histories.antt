-- ===== src/Operator/Histories.antt =====
-- The operator's index over any history of updates (the operations that Cache and the informers call
-- on Index, hyper-operator/internal/identity/index.go).
use hypergate_engine.Prelude.{
  List, [], ◌∷◌, Option, some, ◌>>=◌, ◌≡◌, arith, refl, nat_eq, list_eq, sym, subst,
}
use hypergate_engine.Prelude.Text.{Str}
use hypergate_engine.Prelude.Maps.{lookup}
use hypergate_engine.Net.{addr_eq}
use hypergate_engine.Selector.Sets.{member}
use hypergate_engine.Operator.{
  Service, PodRecord, SliceRecord, CiliumRecord, NodeRecord, Options, Index, new_index,
}
use hypergate_engine.Operator.Frames.{
  upsert_pod-frame, delete_pod-frame, upsert_service-frame, delete_service-frame, upsert_node-frame,
  delete_node-frame, upsert_slice-frame, delete_slice-frame, PodFrame, ServiceFrame, NodeFrame,
  SliceFrame,
}
use hypergate_engine.Operator.Pods.{upsert_pod, delete_pod}
use hypergate_engine.Operator.Pods.Claims.{
  IsClaimed, reclaimed, upsert_pod-IsClaimed, delete_pod-IsClaimed,
}
use hypergate_engine.Operator.Services.{
  upsert_service, delete_service, upsert_node, delete_node, upsert_cilium, delete_cilium,
}
use hypergate_engine.Operator.Services.Backing.{
  IsBacked, upsert_service-IsBacked, delete_service-IsBacked, upsert_node-IsBacked,
  delete_node-IsBacked,
}
use hypergate_engine.Operator.Slices.{upsert_slice, delete_slice}
use hypergate_engine.Operator.Slices.Tally.{
  IsCounted, recounted, tally, upsert_slice-total, delete_slice-total,
}

pub data Update : Type 0 where
  put_pod : PodRecord → Update
  drop_pod : Str → Update
  put_slice : SliceRecord → Update
  drop_slice : Str → Str → Update
  put_service : Service → Update
  drop_service : Str → Str → Update
  put_cilium : CiliumRecord → Update
  drop_cilium : Str → Str → Update
  put_node : NodeRecord → Update
  drop_node : Str → Update

unfoldable pub step : Update → Index → Option Index
unfolding upsert_pod delete_pod upsert_slice delete_slice upsert_service delete_service
    upsert_cilium delete_cilium upsert_node delete_node
step (put_pod p) x = some (upsert_pod p x)
step (drop_pod uid) x = some (delete_pod uid x)
step (put_slice s) x = upsert_slice s x
step (drop_slice namespace name) x = delete_slice namespace name x
step (put_service s) x = some (upsert_service s x)
step (drop_service namespace name) x = some (delete_service namespace name x)
step (put_cilium c) x = some (upsert_cilium c x)
step (drop_cilium namespace name) x = some (delete_cilium namespace name x)
step (put_node n) x = some (upsert_node n x)
step (drop_node name) x = some (delete_node name x)

unfoldable pub run : List Update → Index → Option Index
unfolding step
run [] x = some x
run (u ∷ us) x = step u x >>= run us

pub record IsConsistent (x : Index) : Type 0 where
  pub claimed : IsClaimed x
  pub backed : IsBacked x
  pub counted : IsCounted x

pub new_index-IsConsistent : (opts : Options) → IsConsistent (new_index opts)
unfolding new_index lookup member tally
new_index-IsConsistent opts = record {
  claimed = record { claimed = λ ip u. refl; named = λ u p h. absurd (ground arith) };
  backed = (λ ip r h. absurd (ground arith), λ ip r h. absurd (ground arith));
  counted = record {
    unique = tt;
    by_pod = λ u r. refl;
    by_ip = λ ip r. refl;
    pods_positive = λ k r. refl;
    ips_positive = λ k r. refl;
  };
}

pod-IsConsistent : (x y : Index) → PodFrame x y → IsConsistent x → IsClaimed y → IsConsistent y
pod-IsConsistent x y f c d = record {
  claimed = d;
  backed = subst IsBacked (sym f) c.backed;
  counted = subst IsCounted (sym f) (recounted c.counted);
}

service-IsConsistent :
    (x y : Index) → ServiceFrame x y → IsConsistent x → IsBacked y → IsConsistent y
service-IsConsistent x y f c d = record {
  claimed = subst IsClaimed (sym f) (reclaimed c.claimed);
  backed = d;
  counted = subst IsCounted (sym f) (recounted c.counted);
}

node-IsConsistent : (x y : Index) → NodeFrame x y → IsConsistent x → IsBacked y → IsConsistent y
node-IsConsistent x y f c d = record {
  claimed = subst IsClaimed (sym f) (reclaimed c.claimed);
  backed = d;
  counted = subst IsCounted (sym f) (recounted c.counted);
}

slice-IsConsistent : (x y : Index) → SliceFrame x y → IsConsistent x → IsCounted y → IsConsistent y
slice-IsConsistent x y f c d = record {
  claimed = subst IsClaimed (sym f) (reclaimed c.claimed);
  backed = subst IsBacked (sym f) c.backed;
  counted = d;
}

-- Cilium records stand apart from all that is kept consistent.
cilium-IsConsistent :
    (x y : Index)
    → y ≡ record x { cilium = y.cilium; generation = y.generation; changed = y.changed }
    → IsConsistent x
    → IsConsistent y
cilium-IsConsistent x y f c =
    subst IsConsistent (sym f)
      (record { claimed = reclaimed c.claimed; backed = c.backed; counted = recounted c.counted })

step-IsConsistent :
    (u : Update) (x : Index) → IsConsistent x → (y : Index) × (step u x ≡ some y) × IsConsistent y
unfolding step upsert_cilium delete_cilium
step-IsConsistent (put_pod p) x c = (
  upsert_pod p x,
  refl,
  pod-IsConsistent x (upsert_pod p x) (upsert_pod-frame p x) c (upsert_pod-IsClaimed p x c.claimed),
)
step-IsConsistent (drop_pod uid) x c = (
  delete_pod uid x,
  refl,
  pod-IsConsistent x (delete_pod uid x) (delete_pod-frame uid x) c
      (delete_pod-IsClaimed uid x c.claimed),
)
step-IsConsistent (put_slice s) x c =
    let (y, e, d) = upsert_slice-total s x c.counted in
    (y, e, slice-IsConsistent x y (upsert_slice-frame s x y e) c d)
step-IsConsistent (drop_slice ns name) x c =
    let (y, e, d) = delete_slice-total ns name x c.counted in
    (y, e, slice-IsConsistent x y (delete_slice-frame ns name x y e) c d)
step-IsConsistent (put_service s) x c = (
  upsert_service s x,
  refl,
  service-IsConsistent x (upsert_service s x) (upsert_service-frame s x) c
      (upsert_service-IsBacked s x c.backed),
)
step-IsConsistent (drop_service ns name) x c = (
  delete_service ns name x,
  refl,
  service-IsConsistent x (delete_service ns name x) (delete_service-frame ns name x) c
      (delete_service-IsBacked ns name x c.backed),
)
step-IsConsistent (put_cilium r) x c =
    (upsert_cilium r x, refl, cilium-IsConsistent x (upsert_cilium r x) refl c)
step-IsConsistent (drop_cilium ns name) x c =
    (delete_cilium ns name x, refl, cilium-IsConsistent x (delete_cilium ns name x) refl c)
step-IsConsistent (put_node n) x c = (
  upsert_node n x,
  refl,
  node-IsConsistent x (upsert_node n x) (upsert_node-frame n x) c
      (upsert_node-IsBacked n x c.backed),
)
step-IsConsistent (drop_node name) x c = (
  delete_node name x,
  refl,
  node-IsConsistent x (delete_node name x) (delete_node-frame name x) c
      (delete_node-IsBacked name x c.backed),
)

run_from-IsConsistent :
    (us : List Update) (x : Index)
    → IsConsistent x
    → (y : Index) × (run us x ≡ some y) × IsConsistent y
unfolding run
run_from-IsConsistent [] x c = (x, refl, c)
run_from-IsConsistent (u ∷ us) x c =
    let (y, e, d) = step-IsConsistent u x c in
    let (z, f, k) = run_from-IsConsistent us y d in (z, rw e f, k)

-- No history of updates makes the index panic, and after each the claims on addresses are those of the
-- stored pods, every cluster IP and node address leads to a stored owner that lists it, and the
-- reference counts are what the stored slices contribute.
pub run-IsConsistent :
    (opts : Options) (us : List Update)
    → (y : Index) × (run us (new_index opts) ≡ some y) × IsConsistent y
run-IsConsistent opts us = run_from-IsConsistent us (new_index opts) (new_index-IsConsistent opts)
