-- ===== src/Engine/Access.antt =====
-- How filters read and edit headers, trailers and the path (internal/engine/context.go).
pub mod Laws
use hypergate_engine.Prelude.{
  ℕ, zero, suc, Bool, true, false, List, [], ◌∷◌, ◌++◌, Option, none, some, ℤ, pos, negsuc,
  if◌then◌else◌, ◌==◌, Eq, nat_eq, list_eq, ◌≡◌, ◌↔◌, arith,
}
use hypergate_engine.Prelude.Text.{Str, lit, to_lower}
use hypergate_engine.Prelude.Maps.{Map, lookup}
use hypergate_engine.Net.{Addr}
use hypergate_engine.Identity.Workload.{Workload}
use hypergate_engine.Selector.Traffic.{Traffic}
use hypergate_engine.Engine.Headers.{
  Changes, Trailers, no_changes, no_trailers, set_change, remove_change, set_trailer,
  remove_trailer, contains_key,
}
use hypergate_engine.Engine.Context.{RequestContext}

-- A missing key of a Go map reads as the empty string.
abbrev pub or_empty : Option Str → Str
or_empty none = []
or_empty (some v) = v

-- A value that a filter set wins, a header that a filter removed is empty.
abbrev effective : Option Str → Bool → Option Str → Str
effective (some v) removed original = v
effective none true original = []
effective none false original = or_empty original

-- The key is not lower-cased.
unfoldable pub get_header : RequestContext → Str → Str
get_header c key =
    effective (lookup key c.upstream.shadow) (contains_key c.upstream.to_remove key)
      (lookup key c.headers)

unfoldable pub get_downstream_header : RequestContext → Str → Str
get_downstream_header c key = or_empty (lookup (to_lower key) c.downstream.shadow)

unfoldable pub get_response_header : RequestContext → Str → Str
get_response_header c key =
    let k = to_lower key in
    effective (lookup k c.downstream.shadow) (contains_key c.downstream.to_remove k)
      (lookup k c.response_headers)

unfoldable pub set_header_upstream : Str → Str → RequestContext → RequestContext
set_header_upstream key value c = record c { upstream = set_change key value c.upstream }

unfoldable pub set_path : Str → RequestContext → RequestContext
unfolding set_header_upstream
set_path path c = set_header_upstream (lit ":path") path (record c { path = path })

unfoldable pub remove_header_upstream : Str → RequestContext → RequestContext
remove_header_upstream key c = record c { upstream = remove_change key c.upstream }

unfoldable pub set_header_downstream : Str → Str → RequestContext → RequestContext
set_header_downstream key value c = record c { downstream = set_change key value c.downstream }

unfoldable pub remove_header_downstream : Str → RequestContext → RequestContext
remove_header_downstream key c = record c { downstream = remove_change key c.downstream }

unfoldable pub set_trailer_upstream : Str → Str → RequestContext → RequestContext
set_trailer_upstream key value c = record c {
  request_trailers = set_trailer key value c.request_trailers;
}

unfoldable pub remove_header_upstream_trailer : Str → RequestContext → RequestContext
remove_header_upstream_trailer key c = record c {
  request_trailers = remove_trailer key c.request_trailers;
}

unfoldable pub set_trailer_downstream : Str → Str → RequestContext → RequestContext
set_trailer_downstream key value c = record c {
  response_trailers = set_trailer key value c.response_trailers;
}

unfoldable pub remove_header_downstream_trailer : Str → RequestContext → RequestContext
remove_header_downstream_trailer key c = record c {
  response_trailers = remove_trailer key c.response_trailers;
}
