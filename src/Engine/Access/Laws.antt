-- ===== src/Engine/Access/Laws.antt =====
-- The header reads of a context after its setters (internal/engine/context.go).
use hypergate_engine.Prelude.{[], if◌then◌else◌, ◌==◌, nat_eq, list_eq, ◌≡◌, arith}
use hypergate_engine.Prelude.Text.{Str, to_lower}
use hypergate_engine.Prelude.Maps.{lookup-insert, lookup-delete}
use hypergate_engine.Engine.Headers.{set_change, remove_change, set_edit, remove_edit}
use hypergate_engine.Engine.Headers.Laws.{
  IsMirrored, contains_key-append_key, contains_key-remove_key,
}
use hypergate_engine.Engine.Context.{RequestContext}
use hypergate_engine.Engine.Access.{
  get_header, get_response_header, set_header_upstream, remove_header_upstream,
  set_header_downstream, remove_header_downstream,
}

-- After a filter sets a request header, whatever was queued for it before, later filters read the
-- new value under the lower-case name, and read every other header as before.
pub get_header-set :
    (key v : Str) (c : RequestContext) (j : Str)
    → IsMirrored c.upstream
    → get_header (set_header_upstream key v c) j ≡ (if to_lower key == j then v else get_header c j)
unfolding get_header set_header_upstream set_change set_edit
get_header-set key v c j h = ground (
  arith,
  lookup-insert (to_lower key) j v c.upstream.shadow,
  contains_key-remove_key c.upstream.to_remove (to_lower key) j,
  h.consistent.removed_once j,
)

-- After a filter removes a request header, later filters read it as empty under its lower-case name,
-- and read every other header as before.
pub get_header-remove :
    (key : Str) (c : RequestContext) (j : Str)
    → get_header (remove_header_upstream key c) j
      ≡ (if to_lower key == j then [] else get_header c j)
unfolding get_header remove_header_upstream remove_change remove_edit
get_header-remove key c j = ground (
  arith,
  lookup-delete (to_lower key) j c.upstream.shadow,
  contains_key-append_key c.upstream.to_remove (to_lower key) j,
)

-- After a filter sets a response header, later filters read the new value under any spelling of its
-- name, and read every other header as before.
pub get_response_header-set :
    (key v : Str) (c : RequestContext) (j : Str)
    → IsMirrored c.downstream
    → get_response_header (set_header_downstream key v c) j
      ≡ (if to_lower key == to_lower j then v else get_response_header c j)
unfolding get_response_header set_header_downstream set_change set_edit
get_response_header-set key v c j h = ground (
  arith,
  lookup-insert (to_lower key) (to_lower j) v c.downstream.shadow,
  contains_key-remove_key c.downstream.to_remove (to_lower key) (to_lower j),
  h.consistent.removed_once (to_lower j),
)

-- After a filter removes a response header, later filters read it as empty under any spelling of its
-- name, and read every other header as before.
pub get_response_header-remove :
    (key : Str) (c : RequestContext) (j : Str)
    → get_response_header (remove_header_downstream key c) j
      ≡ (if to_lower key == to_lower j then [] else get_response_header c j)
unfolding get_response_header remove_header_downstream remove_change remove_edit
get_response_header-remove key c j = ground (
  arith,
  lookup-delete (to_lower key) (to_lower j) c.downstream.shadow,
  contains_key-append_key c.downstream.to_remove (to_lower key) (to_lower j),
)
