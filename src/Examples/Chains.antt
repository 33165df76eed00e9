-- ===== src/Examples/Chains.antt =====
-- Chains that fail, deny and are only audited.
use hypergate_engine.Prelude.{
  ℕ, true, false, [], ◌∷◌, none, some, ◌≡◌, refl, ◌⊎◌, inl, pos, take, length,
}
use hypergate_engine.Prelude.Text.{lit}
use hypergate_engine.Engine.Context.{Phase}
use hypergate_engine.Engine.Filter.{Body, plain, audited, execute_filter, phase_aware, is_audited}
use hypergate_engine.Engine.Executor.{execute, run_from, visit, eligible, enforce, execute_audited}
use hypergate_engine.Engine.Executor.Verdicts.{execute-failed}
use hypergate_engine.Engine.Executor.Audits.{execute-audited, execute_audited-traces}
use hypergate_engine.Examples.Data.{counting, failing, denying, request}

abbrev body : Body ℕ
body = record { phases = none; execute = execute_filter failing }

-- The chain of a filter that passes, one that fails and one that would deny.
execute-failed_example :
    let r = execute (counting ∷ plain body ∷ denying ∷ []) Phase.request_headers request 0 in
    (r.error ≡ some (lit "redis"))
    × (r.context.blocked ≡ true)
    × (r.context.filter_failed ≡ true)
    × (r.context.blocked_by ≡ pos 1)
    × (r.context.response_status ≡ 500)
    × (r.context.response_body ≡ lit "Internal Server Error")
    × (r.world
        ≡ (execute_filter failing
            (execute (counting ∷ []) Phase.request_headers request 0).context
            (execute (counting ∷ []) Phase.request_headers request 0).world).world)
unfolding execute run_from visit eligible phase_aware execute_filter is_audited enforce
execute-failed_example =
    execute-failed (counting ∷ []) (denying ∷ []) body Phase.request_headers request 0 (lit "redis")
      refl refl refl refl

execute-audited_example :
    ((execute (audited denying ∷ []) Phase.request_headers request 0).error ≡ none)
    × (((execute (audited denying ∷ []) Phase.request_headers request 0).context.blocked ≡ false)
        ⊎ ((execute (audited denying ∷ []) Phase.request_headers request 0).context.answered
            ≡ true))
unfolding is_audited
execute-audited_example =
    execute-audited (audited denying ∷ []) Phase.request_headers request 0 (refl, tt) refl

execute_audited-traces_example :
    let o = (execute_filter failing request 0).context in
    let r = (execute_audited failing 3 request 0).0 in
    (r.blocked ≡ false)
    × (r.response_status ≡ 0)
    × (r.response_body ≡ [])
    × (r.path ≡ request.path)
    × (r.upstream ≡ request.upstream)
    × (r.downstream ≡ request.downstream)
    × (r.set_header_options ≡ take (length request.set_header_options) o.set_header_options)
    × (r.request_trailers ≡ o.request_trailers)
    × (r.response_trailers ≡ o.response_trailers)
    × (r.request_body ≡ o.request_body)
    × (r.response_body_bytes ≡ o.response_body_bytes)
    × (r.request_body_modified ≡ o.request_body_modified)
    × (r.response_body_modified ≡ o.response_body_modified)
    × (r.request_body_required ≡ o.request_body_required)
    × (r.response_body_required ≡ o.response_body_required)
    × (r.request_trailers_required ≡ o.request_trailers_required)
    × (r.response_trailers_required ≡ o.response_trailers_required)
unfolding execute_filter
execute_audited-traces_example = execute_audited-traces failing 3 request 0 (inl refl)
