-- ===== src/Operator/Slices.antt =====
-- EndpointSlices of the operator's index (UpsertSlice, DeleteSlice, removeSliceLocked, addRef and
-- dropRef of hyper-operator/internal/identity/index.go). A write to a nil map panics: that is `none`.
-- The counts are natural numbers: dropRef deletes what is not positive.
pub mod Refs
pub mod Tally
use hypergate_engine.Prelude.{
  ℕ, ◌+◌, ◌-◌, Bool, true, false, List, [], ◌∷◌, Option, none, some, ◌>>=◌, if◌then◌else◌, ◌==◌, Eq,
  nat_eq, list_eq,
}
use hypergate_engine.Prelude.Text.{Str}
use hypergate_engine.Prelude.Maps.{Map, lookup, insert, delete}
use hypergate_engine.Net.{Addr, addr_eq}
use hypergate_engine.Operator.{
  ServiceRef, ref_eq, SliceRecord, Index, bump, collect_addrs, collect_strings, unique_addrs,
  unique_strings,
}

abbrev pub refs_of : Option (Map ServiceRef ℕ) → Map ServiceRef ℕ
refs_of none = []
refs_of (some refs) = refs

abbrev pub count_of : Option ℕ → ℕ
count_of none = 0
count_of (some n) = n

abbrev put_count : ServiceRef → ℕ → Map ServiceRef ℕ → Map ServiceRef ℕ
put_count ref n refs = if n == 0 then delete ref refs else insert ref n refs

module _ {K : Type 0} ⦃e : Eq K⦄ where
  unfoldable pub add_ref : K → ServiceRef → Map K (Map ServiceRef ℕ) → Map K (Map ServiceRef ℕ)
  unfolding lookup insert
  add_ref key ref m =
      let refs = refs_of (lookup key m) in
      insert key (insert ref (count_of (lookup ref refs) + 1) refs) m

  abbrev put_refs : K → Map ServiceRef ℕ → Map K (Map ServiceRef ℕ) → Map K (Map ServiceRef ℕ)
  put_refs key [] m = delete key m
  put_refs key (r ∷ refs) m = insert key (r ∷ refs) m

  unfoldable pub drop_ref :
      K → ServiceRef → Map K (Map ServiceRef ℕ) → Option (Map K (Map ServiceRef ℕ))
  unfolding lookup insert delete
  drop_ref key ref m = lookup key m >>= λ refs.
      some (put_refs key (put_count ref (count_of (lookup ref refs) - 1) refs) m)

  unfoldable pub add_refs :
      List K → ServiceRef → Map K (Map ServiceRef ℕ) → Map K (Map ServiceRef ℕ)
  unfolding add_ref
  add_refs [] ref m = m
  add_refs (k ∷ ks) ref m = add_refs ks ref (add_ref k ref m)

  unfoldable pub drop_refs :
      List K → ServiceRef → Map K (Map ServiceRef ℕ) → Option (Map K (Map ServiceRef ℕ))
  unfolding drop_ref
  drop_refs [] ref m = some m
  drop_refs (k ∷ ks) ref m = drop_ref k ref m >>= drop_refs ks ref

abbrev pub service_of : SliceRecord → ServiceRef
service_of s = record { namespace = s.namespace; name = s.service }

abbrev pub key_of : SliceRecord → ServiceRef
key_of s = record { namespace = s.namespace; name = s.name }

abbrev drop_slice : ServiceRef → Option SliceRecord → Index → Option Index
drop_slice key none x = some x
drop_slice key (some old) x = drop_refs old.pod_uids (service_of old) x.pod_services >>= λ by_pod.
    drop_refs old.ips (service_of old) x.ip_services >>= λ by_ip.
    some (record x { pod_services = by_pod; ip_services = by_ip; slices = delete key x.slices })

unfoldable pub remove_slice_locked : ServiceRef → Index → Option Index
unfolding drop_refs lookup delete
remove_slice_locked key x = drop_slice key (lookup key x.slices) x

unfoldable pub store_slice : SliceRecord → Index → Index
unfolding add_refs collect_addrs collect_strings insert
store_slice s x =
    let rec : SliceRecord = record s {
      pod_uids = unique_strings s.pod_uids;
      ips = unique_addrs s.ips;
    } in
    record x {
      pod_services = add_refs rec.pod_uids (service_of rec) x.pod_services;
      ip_services = add_refs rec.ips (service_of rec) x.ip_services;
      slices = insert (key_of s) rec x.slices;
    }

unfoldable pub upsert_slice : SliceRecord → Index → Option Index
unfolding remove_slice_locked store_slice
upsert_slice s x = remove_slice_locked (key_of s) x >>= λ y.
    some (if s.service == [] then bump y else bump (store_slice s y))

unfoldable pub delete_slice : Str → Str → Index → Option Index
unfolding remove_slice_locked
delete_slice namespace name x =
    remove_slice_locked (record { namespace = namespace; name = name }) x >>= λ y. some (bump y)
