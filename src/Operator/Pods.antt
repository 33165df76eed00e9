-- ===== src/Operator/Pods.antt =====
-- Pods of the operator's index (UpsertPod, DeletePod, removePodLocked and owner of
-- hyper-operator/internal/identity/index.go). A nil pod is `none`.
pub mod Claims
pub mod Search
pub mod Owner
use hypergate_engine.Prelude.{
  Bool, true, false, ◌&&◌, ◌||◌, List, [], ◌∷◌, ◌++◌, Option, none, some, if◌then◌else◌, ◌==◌,
  nat_eq, list_eq, ltb,
}
use hypergate_engine.Prelude.Text.{Str}
use hypergate_engine.Prelude.Maps.{Map, lookup, insert, delete}
use hypergate_engine.Net.{Addr, addr_eq}
use hypergate_engine.Operator.{PodRecord, Index, bump, filter_labels, collect_addrs, unique_addrs}
use hypergate_engine.Operator.Strings.{above}

abbrev pub uids_of : Option (List Str) → List Str
uids_of none = []
uids_of (some us) = us

unfoldable pub without : Str → List Str → List Str
without uid [] = []
without uid (u ∷ us) = let rest = without uid us in if u == uid then rest else u ∷ rest

abbrev put_claims : Addr → List Str → Map Addr (List Str) → Map Addr (List Str)
put_claims ip [] m = delete ip m
put_claims ip (u ∷ us) m = insert ip (u ∷ us) m

unfoldable pub drop_claims : Str → List Addr → Map Addr (List Str) → Map Addr (List Str)
unfolding without lookup insert delete
drop_claims uid [] m = m
drop_claims uid (ip ∷ ips) m =
    drop_claims uid ips (put_claims ip (without uid (uids_of (lookup ip m))) m)

unfoldable pub add_claims : Str → List Addr → Map Addr (List Str) → Map Addr (List Str)
unfolding lookup insert
add_claims uid [] m = m
add_claims uid (ip ∷ ips) m = add_claims uid ips (insert ip (uids_of (lookup ip m) ++ uid ∷ []) m)

abbrev pub remove_found : Str → Option PodRecord → Index → Index
remove_found uid none x = x
remove_found uid (some old) x = record x {
  claims = drop_claims uid old.ips x.claims;
  pods = delete uid x.pods;
}

unfoldable pub remove_pod_locked : Str → Index → Index
unfolding drop_claims
remove_pod_locked uid x = remove_found uid (lookup uid x.pods) x

unfoldable pub store_pod : PodRecord → Index → Index
unfolding add_claims filter_labels collect_addrs
store_pod p x =
    let rec : PodRecord = record p {
      ips = unique_addrs p.ips;
      labels = filter_labels p.labels x;
    } in
    record x { pods = insert p.uid rec x.pods; claims = add_claims p.uid rec.ips x.claims }

unfoldable pub upsert_pod : PodRecord → Index → Index
unfolding remove_pod_locked store_pod
upsert_pod p x =
    let y = remove_pod_locked p.uid x in
    if p.host_network || p.finished || p.uid == [] then bump y else bump (store_pod p y)

unfoldable pub delete_pod : Str → Index → Index
unfolding remove_pod_locked
delete_pod uid x = bump (remove_pod_locked uid x)

-- Created later, or at the same time with the greater UID.
abbrev pub beats : PodRecord → PodRecord → Bool
beats p q = ltb q.created p.created || p.created == q.created && above p.uid q.uid

abbrev pub better : Option PodRecord → Option PodRecord → Option PodRecord
better none best = best
better (some p) none = some p
better (some p) (some b) = if beats p b then some p else some b

unfoldable pub best_of : Map Str PodRecord → List Str → Option PodRecord → Option PodRecord
unfolding lookup above
best_of pods [] best = best
best_of pods (u ∷ us) best = best_of pods us (better (lookup u pods) best)

unfoldable pub owner : Addr → Index → Option PodRecord
unfolding best_of lookup
owner ip x = best_of x.pods (uids_of (lookup ip x.claims)) none
