-- ===== src/Operator/Routes/Accepted.antt =====
-- What the webhook accepts and what the engine accepts (hyper-operator/internal/routes/routes.go and
-- internal/config/parser.go).
use hypergate_engine.Prelude.{
  Bool, true, List, [], ◌∷◌, Option, none, some, ◌>>=◌, require, ◌==◌, nat_eq, list_eq, list_beq,
  ◌≡◌, refl, arith, subst, sym, >>=-eq-some, require-eq-some, some_inj, Option-cases, inl, inr,
  if_ind, is_some, ◌&&◌, ◌||◌, Bool-cases, not, length,
}
use hypergate_engine.Prelude.Text.{Str, lit, to_lower}
use hypergate_engine.Prelude.Maps.{Map, insert, delete}
use hypergate_engine.Selector.Kinds.{source, destination}
use hypergate_engine.Selector.Traffic.{Traffic, parse_traffic, parse_traffic-traffic_string}
use hypergate_engine.Selector.Sets.{compile}
use hypergate_engine.Config.Routing.{Regexp, HeaderMatchConfig, MatchConfig, compile_match}
use hypergate_engine.Config.Parser.{
  Platform, lower_headers, compile_headers, optional_regexp, prepare_match, prepare_matches,
}
use hypergate_engine.Operator.Routes.{
  MatchRule, HyperRouteSpec, Options, engine_traffic, lower_exact, check_rule, entry_of,
  compile_rule, compile_rules, compile_spec,
}

-- No header rule has a pattern.
abbrev IsExact : Map Str HeaderMatchConfig → Type 0
IsExact [] = Unit
IsExact ((k, v) ∷ m) = (v.regex_pattern ≡ []) × IsExact m

delete-IsExact : (k : Str) (m : Map Str HeaderMatchConfig) → IsExact m → IsExact (delete k m)
unfolding delete
delete-IsExact k [] h = tt
delete-IsExact k ((j, v) ∷ m) (p, h) =
    if_ind IsExact (j == k) (delete-IsExact k m h) (p, delete-IsExact k m h)

lower_exact-IsExact :
    (m : Map Str Str) (out : Map Str HeaderMatchConfig) → IsExact out → IsExact (lower_exact m out)
unfolding lower_exact insert
lower_exact-IsExact [] out h = h
lower_exact-IsExact ((k, v) ∷ m) out h =
    lower_exact-IsExact m _ (refl, delete-IsExact (to_lower k) out h)

module _ (os : Platform) where
  lower_headers-IsExact :
      (m out : Map Str HeaderMatchConfig)
      → IsExact m
      → IsExact out
      → IsExact (lower_headers os m out)
  unfolding lower_headers insert
  lower_headers-IsExact [] out h k = k
  lower_headers-IsExact ((j, v) ∷ m) out (p, h) k =
      lower_headers-IsExact m _ h (p, delete-IsExact (to_lower j) out k)

  cons_exact :
      (k : Str) (v : HeaderMatchConfig) (m m' : Map Str HeaderMatchConfig)
      → v.regex_pattern ≡ []
      → compile_headers os m ≡ some m'
      → compile_headers os ((k, v) ∷ m) ≡ some ((k, v) ∷ m')
  unfolding compile_headers list_beq
  cons_exact k v m m' p e =
      subst
        (λ q.
          (optional_regexp os q v.compiled_regex >>= λ re.
          compile_headers os m >>= λ rest. some ((k, record v { compiled_regex = re }) ∷ rest))
          ≡ some ((k, v) ∷ m'))
        (sym p) (rw e refl)

  compile_headers-IsExact :
      (m : Map Str HeaderMatchConfig)
      → IsExact m
      → (m' : Map Str HeaderMatchConfig) × (compile_headers os m ≡ some m')
  unfolding compile_headers list_beq
  compile_headers-IsExact [] h = ([], refl)
  compile_headers-IsExact ((k, v) ∷ m) (p, h) =
      let (m', e) = compile_headers-IsExact m h in ((k, v) ∷ m', cons_exact k v m m' p e)

parse_empty : parse_traffic [] ≡ some Traffic.any
unfolding parse_traffic list_beq
parse_empty = refl

parse_traffic-engine_traffic :
    (t s : Str) → engine_traffic t ≡ some s → (c : Traffic) × (parse_traffic s ≡ some c)
unfolding engine_traffic
parse_traffic-engine_traffic t s h = elim (Bool-cases (t == [] || t == lit "Any")) [
  | inl a ↦ (
    Traffic.any,
    subst (λ v. parse_traffic v ≡ some Traffic.any) (some_inj (rw a at h)) (parse_empty),
  )
  | inr a ↦ elim (Bool-cases (t == lit "NorthSouth")) [
    | inl b ↦ (
      Traffic.north_south,
      subst (λ v. parse_traffic v ≡ some Traffic.north_south) (some_inj (rw b at (rw a at h)))
          (parse_traffic-traffic_string Traffic.north_south),
    )
    | inr b ↦ elim (Bool-cases (t == lit "EastWest")) [
      | inl c ↦ (
        Traffic.east_west,
        subst (λ v. parse_traffic v ≡ some Traffic.east_west)
            (some_inj (rw c at (rw b at (rw a at h))))
            (parse_traffic-traffic_string Traffic.east_west),
      )
      | inr c ↦ absurd (ground (arith, rw c at (rw b at (rw a at h))))
    ]
  ]
]

module _ (os : Platform) where
  optional_regexp-total :
      (pattern : Str) (old : Option Regexp)
      → (pattern == [] || is_some (os.compile_regexp pattern)) ≡ true
      → (re : Option Regexp) × (optional_regexp os pattern old ≡ some re)
  optional_regexp-total pattern old h = elim (Bool-cases (pattern == [])) [
    | inl e ↦ (old, rw e refl)
    | inr e ↦ elim (Option-cases (os.compile_regexp pattern)) [
      | inl f ↦ absurd (ground (arith, h, e, f))
      | inr (re, f) ↦ (some re, rw e (rw f refl))
    ]
  ]

  is_some-value : {A : Type 0} (o : Option A) → is_some o ≡ true → (a : A) × (o ≡ some a)
  is_some-value none h = absurd (ground arith)
  is_some-value (some a) h = (a, refl)

  compile_match-total :
      (allow : Bool) (c : MatchConfig) (class : Traffic)
      → parse_traffic c.traffic ≡ some class
      → is_some (compile os.netip c.sources source allow) ≡ true
      → is_some (compile os.netip c.destinations destination allow) ≡ true
      → (c' : MatchConfig) × (compile_match os.netip allow c ≡ some c')
  unfolding compile_match
  compile_match-total allow c class p s d =
      let (src, e) = is_some-value (compile os.netip c.sources source allow) s in
      let (dst, f) = is_some-value (compile os.netip c.destinations destination allow) d in
      (
        record c { compiled_traffic = class; compiled_sources = src; compiled_destinations = dst },
        rw (compile_match, p) (rw e (rw f refl)),
      )

  prepare_match-total :
      (allow : Bool) (c : MatchConfig) (class : Traffic)
      → parse_traffic c.traffic ≡ some class
      → is_some (compile os.netip c.sources source allow) ≡ true
      → is_some (compile os.netip c.destinations destination allow) ≡ true
      → (c.path_regex_pattern == [] || is_some (os.compile_regexp c.path_regex_pattern)) ≡ true
      → IsExact c.headers
      → (c' : MatchConfig) × (prepare_match os allow c ≡ some c')
  unfolding prepare_match
  prepare_match-total allow c class p s d r x =
      let (compiled, e) = compile_match-total allow c class p s d in
      let (re, f) = optional_regexp-total c.path_regex_pattern c.compiled_path_regex r in
      let (headers, g) =
        compile_headers-IsExact os (lower_headers os c.headers [])
          (lower_headers-IsExact os c.headers [] x tt) in
      (record compiled { compiled_path_regex = re; headers = headers }, rw e (rw f (rw g refl)))

module _ (os : Platform) (opts : Options) where
  -- A rule that compiles to a match entry has selectors and a pattern that compile.
  prepare_match-compile_rule :
      (m : MatchRule) (c : MatchConfig)
      → compile_rule os opts m ≡ some c
      → (c' : MatchConfig) × (prepare_match os opts.workloads c ≡ some c')
  unfolding compile_rule check_rule prepare_match compile_match
  prepare_match-compile_rule m c h =
      let (t, e, k) = >>=-eq-some (engine_traffic m.traffic) _ h in
      let (u, f, j) = >>=-eq-some (require (check_rule os opts m)) _ k in
      let checked = require-eq-some (check_rule os opts m) f in
      let (class, parsed) = parse_traffic-engine_traffic m.traffic t e in
      subst (λ c. (c' : MatchConfig) × (prepare_match os opts.workloads c ≡ some c')) (some_inj j)
        (prepare_match-total os opts.workloads (entry_of t m) class parsed (ground (arith, checked))
          (ground (arith, checked)) (ground (arith, checked)) (lower_exact-IsExact m.headers [] tt))

  prepare_matches-compile_rules :
      (ms : List MatchRule) (cs : List MatchConfig)
      → compile_rules os opts ms ≡ some cs
      → (cs' : List MatchConfig) × (prepare_matches os opts.workloads cs ≡ some cs')
  unfolding compile_rules prepare_matches
  prepare_matches-compile_rules [] cs h =
      subst (λ cs. (cs' : List MatchConfig) × (prepare_matches os opts.workloads cs ≡ some cs'))
        (some_inj h) ([], refl)
  prepare_matches-compile_rules (m ∷ ms) cs h =
      let (c, e, k) = >>=-eq-some (compile_rule os opts m) _ h in
      let (rest, f, j) = >>=-eq-some (compile_rules os opts ms) _ k in
      let (c', p) = prepare_match-compile_rule m c e in
      let (rest', q) = prepare_matches-compile_rules ms rest f in
      subst (λ cs. (cs' : List MatchConfig) × (prepare_matches os opts.workloads cs ≡ some cs'))
        (some_inj j) (c' ∷ rest', rw p (rw q refl))

  -- What a HyperRoute that the webhook accepts compiles to is prepared by an engine without an error,
  -- where the engine has identities exactly if the operator assumes so.
  pub prepare_matches-compile_spec :
      (spec : HyperRouteSpec) (cs : List MatchConfig)
      → compile_spec os opts spec ≡ some cs
      → (cs' : List MatchConfig) × (prepare_matches os opts.workloads cs ≡ some cs')
  unfolding compile_spec
  prepare_matches-compile_spec spec cs h =
      let (u, f, k) =
        >>=-eq-some (require (not (spec.target_policy == []) && not (length spec.matches == 0))) _
          h in
      prepare_matches-compile_rules spec.matches cs k
