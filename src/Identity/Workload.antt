-- ===== src/Identity/Workload.antt =====
-- The values of the identity map (internal/identity/index.go).
use hypergate_engine.Prelude.{ℕ, Bool, true, false, List, ◌++◌, Option, none, some}
use hypergate_engine.Prelude.Text.{Str, lit}
use hypergate_engine.Prelude.Maps.{Map}
use hypergate_engine.Net.{Addr}

pub data Kind : Type 0 where
  unknown pod node : Kind

pub record Workload : Type 0 where
  pub ip : Addr
  pub kind : Kind
  pub namespace : Str
  pub pod_name : Str
  pub pod_uid : Str
  pub service_account : Str
  pub spiffe_id : Str
  pub node_name : Str
  pub labels : Map Str Str
  pub services : List Str
  pub security_identity : ℕ

abbrev is_pod_kind : Kind → Bool
is_pod_kind pod = true
is_pod_kind _ = false

-- `nil` is no pod.
unfoldable pub is_pod : Option Workload → Bool
is_pod none = false
is_pod (some w) = is_pod_kind w.kind

pub record Service : Type 0 where
  pub namespace : Str
  pub name : Str
  pub cluster_ips : List Addr
  pub ports : List ℕ

abbrev pub key : Service → Str
key s = s.namespace ++ lit "/" ++ s.name
