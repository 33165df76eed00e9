-- ===== src/Engine/Executor/Audits.antt =====
-- Audit mode (internal/engine/audit.go and executeAudited of internal/engine/executor.go).
use hypergate_engine.Prelude.{
  ℕ, suc, true, false, List, [], ◌∷◌, ◌++◌, none, ◌≡◌, refl, arith, ◌⊎◌, inl, inr, pos, All, length,
  is_some, Bool-cases, length-append, take,
}
use hypergate_engine.Engine.Context.{RequestContext, AuditHit, Phase}
use hypergate_engine.Engine.Filter.{Filter, Chain, is_audited, execute_filter, plain, audited}
use hypergate_engine.Engine.Executor.{next, eligible, visit, run_from, execute, execute_audited}
use hypergate_engine.Engine.Executor.Order.{run_from-blocked}

length-snoc :
    (hits : List AuditHit) (hit : AuditHit) → length (hits ++ hit ∷ []) ≡ suc (length hits)
length-snoc hits hit = omega (arith, length-append hits (hit ∷ []))

module _ {W : Type 0} (f : Filter W) (i : ℕ) (c : RequestContext) (w : W) where
  -- The filter failed, or it blocked the request with a denial.
  abbrev pub Denies : Type 0
  Denies =
      (is_some (execute_filter f c w).error ≡ true)
      ⊎ ((execute_filter f c w).context.blocked ≡ true)
        × ((execute_filter f c w).context.answered ≡ false)

  -- An audited filter that fails or denies leaves the request unblocked, without a status or a body,
  -- and one audit hit more than the filter itself left.
  pub execute_audited-denial :
      Denies
      → let r = (execute_audited f i c w).0 in
        (r.blocked ≡ false)
        × (r.answered ≡ false)
        × (r.response_status ≡ 0)
        × (r.response_body ≡ [])
        × (length r.audit_hits ≡ suc (length (execute_filter f c w).context.audit_hits))
  unfolding execute_audited
  execute_audited-denial d =
      let o = execute_filter f c w in
      let hits = o.context.audit_hits in
      let status = o.context.response_status in
      ground (
        arith,
        length-snoc hits (record { index = i; status = 500; failed = true }),
        length-snoc hits (record { index = i; status = 403; failed = false }),
        length-snoc hits (record { index = i; status = status; failed = false }),
      )

  -- Where an audited filter fails or denies, the path and the header changes of the request and of
  -- the response are those from before it ran.
  pub execute_audited-restores :
      Denies
      → let r = (execute_audited f i c w).0 in
        (r.path ≡ c.path) × (r.upstream ≡ c.upstream) × (r.downstream ≡ c.downstream)
  unfolding execute_audited
  execute_audited-restores d = ground arith

  -- Where an audited filter fails or denies, the request goes on unblocked, without a status or a body,
  -- and with the path and the header changes from before the filter ran; but what the filter did to the
  -- trailers, the bodies and every flag that asks Envoy for more or marks a body as changed stays.
  pub execute_audited-traces :
      Denies
      → let o = (execute_filter f c w).context in
        let r = (execute_audited f i c w).0 in
        (r.blocked ≡ false)
        × (r.response_status ≡ 0)
        × (r.response_body ≡ [])
        × (r.path ≡ c.path)
        × (r.upstream ≡ c.upstream)
        × (r.downstream ≡ c.downstream)
        × (r.set_header_options ≡ take (length c.set_header_options) o.set_header_options)
        × (r.request_trailers ≡ o.request_trailers)
        × (r.response_trailers ≡ o.response_trailers)
        × (r.request_body ≡ o.request_body)
        × (r.response_body_bytes ≡ o.response_body_bytes)
        × (r.request_body_modified ≡ o.request_body_modified)
        × (r.response_body_modified ≡ o.response_body_modified)
        × (r.request_body_required ≡ o.request_body_required)
        × (r.response_body_required ≡ o.response_body_required)
        × (r.request_trailers_required ≡ o.request_trailers_required)
        × (r.response_trailers_required ≡ o.response_trailers_required)
  unfolding execute_audited
  execute_audited-traces d = ground arith

  -- Where a request is blocked after an audited filter, the filter returned no error, and it blocked
  -- with an answer of its own, under its own position.
  pub execute_audited-blocked :
      (execute_audited f i c w).0.blocked ≡ true
      → let o = execute_filter f c w in
        (o.error ≡ none)
        × (o.context.blocked ≡ true)
        × (o.context.answered ≡ true)
        × ((execute_audited f i c w).0.blocked_by ≡ pos i)
        × ((execute_audited f i c w).0.answered ≡ true)
  unfolding execute_audited
  execute_audited-blocked h = ground arith

-- A block that is only an answer.
abbrev OnlyAnswers : RequestContext → Type 0
OnlyAnswers c = c.blocked ≡ true → c.answered ≡ true

module _ {W : Type 0} where
  abbrev pub IsAudited : Filter W → Type 0
  IsAudited f = (is_audited f).1 ≡ true

  visit-audited :
      (f : Filter W) (i : ℕ) (p : Phase) (c : RequestContext) (w : W)
      → IsAudited f
      → c.blocked ≡ false
      → (c' : RequestContext) × (w' : W) × (visit f i p c w ≡ next c' w') × OnlyAnswers c'
  unfolding visit is_audited
  visit-audited (plain b) i p c w a h = absurd (cc)
  visit-audited (audited f) i p c w a h = elim (Bool-cases (eligible f p)) [
    | inl e ↦ (
      (execute_audited f i c w).0,
      (execute_audited f i c w).1,
      ground arith,
      λ b. (execute_audited-blocked f i c w b).4,
    )
    | inr e ↦ (c, w, ground arith, λ b. cc)
  ]

  -- A chain of audited filters never fails and never denies a request that came unblocked: at most
  -- it answers it.
  pub run_from-audited :
      (fs : Chain W) (i : ℕ) (p : Phase) (c : RequestContext) (w : W)
      → All IsAudited fs
      → c.blocked ≡ false
      → ((run_from fs i p c w).error ≡ none) × OnlyAnswers (run_from fs i p c w).context
  unfolding run_from
  run_from-audited [] i p c w a h = (refl, λ b. cc)
  run_from-audited (f ∷ fs) i p c w (a, rest) h =
      let (c', w', e, only) = visit-audited f i p c w a h in
      rw e (elim (Bool-cases c'.blocked) [
        | inl b ↦ rw (run_from-blocked fs (suc i) p c' w' b) (refl, only)
        | inr b ↦ run_from-audited fs (suc i) p c' w' rest b
      ])

  -- Running a chain of audited filters on an unblocked request gives no error, and the request is
  -- unblocked afterwards or blocked by an answer of a filter: a dry run denies nothing.
  pub execute-audited :
      (fs : Chain W) (p : Phase) (c : RequestContext) (w : W)
      → All IsAudited fs
      → c.blocked ≡ false
      → ((execute fs p c w).error ≡ none)
        × (((execute fs p c w).context.blocked ≡ false)
            ⊎ ((execute fs p c w).context.answered ≡ true))
  unfolding execute
  execute-audited fs p c w a h =
      let (fine, only) = run_from-audited fs 0 p (record c { phase = p }) w a h in
      (
        fine,
        elim (Bool-cases (execute fs p c w).context.blocked) [
          | inl b ↦ inr (only b)
          | inr b ↦ inl b
        ],
      )
