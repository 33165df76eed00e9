-- ===== src/Filters/HeaderModifier.antt =====
-- The header modifier (internal/filters/header_modifier/modifier.go).
use hypergate_engine.Prelude.{
  Bool, List, [], ◌∷◌, if◌then◌else◌, ◌==◌, nat_eq, list_eq, any, map, ◌≡◌, refl, ap, ◌∙◌, arith,
}
use hypergate_engine.Prelude.Text.{Str, to_lower}
use hypergate_engine.Prelude.Maps.{Map, insert}
use hypergate_engine.Engine.Headers.Laws.{
  IsMirrored, set_change-IsMirrored, remove_change-IsMirrored,
}
use hypergate_engine.Engine.Context.{RequestContext}
use hypergate_engine.Engine.Access.{
  get_header, set_header_upstream, remove_header_upstream, set_header_downstream,
  remove_header_downstream,
}
use hypergate_engine.Engine.Access.Laws.{get_header-set, get_header-remove}

pub record HeaderOptions : Type 0 where
  pub add : Map Str Str
  pub override : Map Str Str
  pub remove : List Str

-- `top` are the add, override and remove fields of the configuration itself.
pub record ModifierConfig : Type 0 where
  pub upstream : HeaderOptions
  pub downstream : HeaderOptions
  pub top : HeaderOptions

lower_map : Map Str Str → Map Str Str → Map Str Str
unfolding to_lower insert
lower_map [] res = res
lower_map ((k, v) ∷ m) res = lower_map m (insert (to_lower k) v res)

unfoldable pub lower_options : HeaderOptions → HeaderOptions
unfolding lower_map
lower_options o = record {
  add = lower_map o.add [];
  override = lower_map o.override [];
  remove = map to_lower o.remove;
}

unfoldable pub new_modifier : ModifierConfig → ModifierConfig
unfolding lower_options
new_modifier c = record {
  upstream = lower_options c.upstream;
  downstream = lower_options c.downstream;
  top = lower_options c.top;
}

unfoldable pub set_all : Map Str Str → RequestContext → RequestContext
unfolding set_header_upstream
set_all [] c = c
set_all ((k, v) ∷ m) c = set_all m (set_header_upstream k v c)

unfoldable pub remove_all : List Str → RequestContext → RequestContext
unfolding remove_header_upstream
remove_all [] c = c
remove_all (k ∷ ks) c = remove_all ks (remove_header_upstream k c)

unfoldable pub set_all_downstream : Map Str Str → RequestContext → RequestContext
unfolding set_header_downstream
set_all_downstream [] c = c
set_all_downstream ((k, v) ∷ m) c = set_all_downstream m (set_header_downstream k v c)

unfoldable pub remove_all_downstream : List Str → RequestContext → RequestContext
unfolding remove_header_downstream
remove_all_downstream [] c = c
remove_all_downstream (k ∷ ks) c = remove_all_downstream ks (remove_header_downstream k c)

-- Three of the loops: add, override, remove.
unfoldable pub apply_upstream : HeaderOptions → RequestContext → RequestContext
unfolding set_all remove_all
apply_upstream o c = remove_all o.remove (set_all o.override (set_all o.add c))

unfoldable pub apply_downstream : HeaderOptions → RequestContext → RequestContext
unfolding set_all_downstream remove_all_downstream
apply_downstream o c =
    remove_all_downstream o.remove (set_all_downstream o.override (set_all_downstream o.add c))

-- The result is always nil.
unfoldable pub execute : ModifierConfig → RequestContext → RequestContext
unfolding apply_upstream apply_downstream
execute f c = apply_downstream f.downstream (apply_upstream f.upstream (apply_upstream f.top c))

-- The value that the last write to a header in a list of writes gives it, or what it had.
unfoldable pub written : Map Str Str → Str → Str → Str
written [] j before = before
written ((k, v) ∷ m) j before = written m j (if to_lower k == j then v else before)

abbrev pub is_removed : List Str → Str → Bool
is_removed ks j = any (λ k. to_lower k == j) ks

set_all-IsMirrored :
    (m : Map Str Str) (c : RequestContext)
    → IsMirrored c.upstream
    → IsMirrored (set_all m c).upstream
unfolding set_all
set_all-IsMirrored [] c h = h
set_all-IsMirrored ((k, v) ∷ m) c h =
    set_all-IsMirrored m _ (unfold set_header_upstream in set_change-IsMirrored k v c.upstream h)

get_header-set_all :
    (m : Map Str Str) (c : RequestContext) (j : Str)
    → IsMirrored c.upstream
    → get_header (set_all m c) j ≡ written m j (get_header c j)
unfolding set_all written
get_header-set_all [] c j h = refl
get_header-set_all ((k, v) ∷ m) c j h =
    get_header-set_all m _ j (unfold set_header_upstream in set_change-IsMirrored k v c.upstream h)
    ∙ ap (written m j) (get_header-set k v c j h)

get_header-remove_all :
    (ks : List Str) (c : RequestContext) (j : Str)
    → get_header (remove_all ks c) j ≡ (if is_removed ks j then [] else get_header c j)
unfolding remove_all
get_header-remove_all [] c j = refl
get_header-remove_all (k ∷ ks) c j =
    ground (arith, get_header-remove_all ks (remove_header_upstream k c) j, get_header-remove k c j)

remove_all-IsMirrored :
    (ks : List Str) (c : RequestContext)
    → IsMirrored c.upstream
    → IsMirrored (remove_all ks c).upstream
unfolding remove_all
remove_all-IsMirrored [] c h = h
remove_all-IsMirrored (k ∷ ks) c h =
    remove_all-IsMirrored ks _
      (unfold remove_header_upstream in remove_change-IsMirrored k c.upstream h)

-- A request header after one group of options: empty if it is removed, else what it is overridden
-- with, else what is added, else what it was.
abbrev pub modified : HeaderOptions → Str → Str → Str
modified o j before =
    if is_removed o.remove j then [] else written o.override j (written o.add j before)

apply_upstream-IsMirrored :
    (o : HeaderOptions) (c : RequestContext)
    → IsMirrored c.upstream
    → IsMirrored (apply_upstream o c).upstream
unfolding apply_upstream
apply_upstream-IsMirrored o c h =
    remove_all-IsMirrored o.remove _
      (set_all-IsMirrored o.override _ (set_all-IsMirrored o.add c h))

get_header-apply_upstream :
    (o : HeaderOptions) (c : RequestContext) (j : Str)
    → IsMirrored c.upstream
    → get_header (apply_upstream o c) j ≡ modified o j (get_header c j)
unfolding apply_upstream
get_header-apply_upstream o c j h =
    get_header-remove_all o.remove _ j
    ∙ ap (λ v. if is_removed o.remove j then [] else v)
        (get_header-set_all o.override _ j (set_all-IsMirrored o.add c h)
          ∙ ap (written o.override j) (get_header-set_all o.add c j h))

apply_downstream-upstream :
    (o : HeaderOptions) (c : RequestContext) (j : Str)
    → get_header (apply_downstream o c) j ≡ get_header c j
unfolding apply_downstream get_header
apply_downstream-upstream o c j = removed o.remove _ ∙ set o.override _ ∙ set o.add c
  where
    set :
        (m : Map Str Str) (d : RequestContext)
        → get_header (set_all_downstream m d) j ≡ get_header d j
    set [] d = refl
    set ((k, v) ∷ m) d = set m _

    removed :
        (ks : List Str) (d : RequestContext)
        → get_header (remove_all_downstream ks d) j ≡ get_header d j
    removed [] d = refl
    removed (k ∷ ks) d = removed ks _

-- What later filters read of a request header after the modifier: the top-level options are applied
-- first and the upstream options to their result, each as removed, overridden, added or left.
pub get_header-execute :
    (f : ModifierConfig) (c : RequestContext) (j : Str)
    → IsMirrored c.upstream
    → get_header (execute f c) j ≡ modified f.upstream j (modified f.top j (get_header c j))
unfolding execute
get_header-execute f c j h =
    apply_downstream-upstream f.downstream _ j
    ∙ get_header-apply_upstream f.upstream _ j (apply_upstream-IsMirrored f.top c h)
    ∙ ap (modified f.upstream j) (get_header-apply_upstream f.top c j h)
