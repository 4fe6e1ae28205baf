-- ===== src/Pipeline/Steps.antt =====
-- The stages follow their piece of the plan, and so do stages that follow one another.
use app_stt_aio.Base.{
  Bool, Bool-cases, Bytes, List, Option, String, [], ap, arith, false, inl, inr, nat_eq, none, refl,
  some, string_eq, subst, sym, true, ℕ, ◌++◌, ◌==◌, ◌∙◌, ◌∷◌, ◌≡◌,
}
use mathlib.Core.List.{append-nil, append_assoc}
use app_stt_aio.Base.Result.{Result, ok, err}
use app_stt_aio.Pipeline.{
  PipelineStatus, PipelineMode, StageArtifact, Failure, other_error, stage_started, Engine,
  Services, Action, emit, canceled_now, asked, persist,
}
use app_stt_aio.Pipeline.Stages.{
  complete_stage, stage1, run_stage1, llm_stage, llm_on, llm_from, source_of, run_llm_stage,
  is_running, continue, llm_if, stage1_from,
}
use app_stt_aio.Pipeline.Plan.{
  Mark, start, stage_plan, when_wanted, Open, Stopped, IsEnding, Out, emit-Open, asked-Open,
  cancel-Stopped, fail-Stopped, complete_stage-Out, persist-Open,
}

run_stage1-stage :
    (v : Services) (audio : Bytes) (id : String) (a : StageArtifact)
    → run_stage1 v audio id ≡ ok a
    → a.stage ≡ 1
unfolding run_stage1
run_stage1-stage v audio id a e = ground arith

run_llm_stage-stage :
    (v : Services) (id : String) (k : ℕ) (source a : StageArtifact) (prompt : String)
    → run_llm_stage v id k source ≡ ok (a, prompt)
    → a.stage ≡ k
unfolding run_llm_stage
run_llm_stage-stage v id k source a prompt e = ground arith

at_stage :
    (v : Services) (mode : PipelineMode) (k : ℕ) (a : StageArtifact)
    (r : Result Failure (Unit {0}) × Engine) (done : List Mark)
    → a.stage ≡ k
    → Open (done ++ start k ∷ []) r.1
    → Out done (stage_plan mode k) (complete_stage v mode a r)
at_stage v mode k a r done e h =
    subst
      (λ k.
        Open (done ++ start k ∷ []) r.1 → Out done (stage_plan mode k) (complete_stage v mode a r))
      e (complete_stage-Out v mode a r done) h

stage1_from-Out :
    (v : Services) (mode : PipelineMode) (r : Result Failure StageArtifact) (done : List Mark)
    (s : Engine)
    → ((a : StageArtifact) → r ≡ ok a → a.stage ≡ 1)
    → Open (done ++ start 1 ∷ []) s
    → Out done (stage_plan mode 1) (stage1_from v mode r s)
stage1_from-Out v mode (err e) done s one h = (start 1 ∷ [], _, refl, h)
stage1_from-Out v mode (ok a) done s one h =
    at_stage v mode 1 a (persist v a none s) done (one a refl) (persist-Open v a none _ s h)

pub stage1-Out :
    (v : Services) (mode : PipelineMode) (audio : Bytes) (done : List Mark) (s : Engine)
    → Open done s
    → Out done (stage_plan mode 1) (stage1 v mode audio s)
unfolding stage1
stage1-Out v mode audio done s h =
    let s' = emit (stage_started 1) s in
    let kept = asked-Open (done ++ start 1 ∷ []) s' (emit-Open (stage_started 1) done s h) in
    elim (Bool-cases (canceled_now s'.answers)) [
      | inl stop ↦
          rw stop
            (inr (cancel-Stopped 1 done (stage_plan mode 1) (start 1 ∷ []) _ (asked s') refl kept))
      | inr go ↦ rw go (
          stage1_from-Out v mode (run_stage1 v audio s.run.session_id) done (asked s')
            (run_stage1-stage v audio s.run.session_id) kept)
    ]

llm_from-Out :
    (v : Services) (mode : PipelineMode) (k : ℕ) (r : Result Failure (StageArtifact × String))
    (done : List Mark) (s : Engine)
    → ((a : StageArtifact) (prompt : String) → r ≡ ok (a, prompt) → a.stage ≡ k)
    → Open (done ++ start k ∷ []) s
    → Out done (stage_plan mode k) (llm_from v mode k r s)
llm_from-Out v mode k (err e) done s at h =
    inr (fail-Stopped k e done (stage_plan mode k) (start k ∷ []) _ s refl h)
llm_from-Out v mode k (ok (a, prompt)) done s at h =
    at_stage v mode k a (persist v a (some prompt) s) done (at a prompt refl)
      (persist-Open v a (some prompt) _ s h)

llm_on-Out :
    (v : Services) (mode : PipelineMode) (k : ℕ) (o : Option StageArtifact) (done : List Mark)
    (s : Engine)
    → Open (done ++ start k ∷ []) s
    → Out done (stage_plan mode k) (llm_on v mode k o s)
llm_on-Out v mode k none done s h = elim (Bool-cases (k == 3)) [
  | inl three ↦ rw three (start k ∷ [], _, refl, h)
  | inr two ↦
      rw two
        (inr (fail-Stopped k (other_error "1") done (stage_plan mode k) (start k ∷ []) _ s refl h))
]
llm_on-Out v mode k (some source) done s h =
    llm_from-Out v mode k (run_llm_stage v s.run.session_id k source) done s
      (run_llm_stage-stage v s.run.session_id k source) h

llm_stage-Out :
    (v : Services) (mode : PipelineMode) (k : ℕ) (done : List Mark) (s : Engine)
    → Open done s
    → Out done (stage_plan mode k) (llm_stage v mode k s)
unfolding llm_stage
llm_stage-Out v mode k done s h =
    let s' = emit (stage_started k) s in
    let kept = asked-Open (done ++ start k ∷ []) s' (emit-Open (stage_started k) done s h) in
    elim (Bool-cases (canceled_now s'.answers)) [
      | inl stop ↦
          rw stop
            (inr (cancel-Stopped k done (stage_plan mode k) (start k ∷ []) _ (asked s') refl kept))
      | inr go ↦ rw go (llm_on-Out v mode k (source_of k s.run) done (asked s') kept)
    ]

pub llm_if-Out :
    (v : Services) (mode : PipelineMode) (wanted : Bool) (k : ℕ) (done : List Mark) (s : Engine)
    → Open done s
    → Out done (when_wanted wanted (stage_plan mode k)) (llm_if v mode wanted k s)
llm_if-Out v mode true k done s h = llm_stage-Out v mode k done s h
llm_if-Out v mode false k done s h = inl (subst (λ l. Open l s) (sym (append-nil done)) h)

-- Two pieces, one behind the other.
extend : (done p q : List Mark) (s : Engine) → Stopped done p s → Stopped done (p ++ q) s
extend done p q s h = record {
  taken = h.taken;
  rest = h.rest ++ q;
  ending = h.ending;
  split = ap (λ l. l ++ q) h.split ∙ append_assoc h.taken h.rest q;
  trace = h.trace;
  ended = h.ended;
}

behind :
    (done p q : List Mark) (r : Result Failure (Unit {0}) × Engine)
    → Out (done ++ p) q r
    → Out done (p ++ q) r
behind done p q (err e, s) (taken, rest, split, h) = (
  p ++ taken,
  rest,
  ap (λ l. p ++ l) split ∙ sym (append_assoc p taken rest),
  subst (λ l. Open l s) (append_assoc done p taken) h,
)
behind done p q (ok u, s) (inl h) = inl (subst (λ l. Open l s) (append_assoc done p q) h)
behind done p q (ok u, s) (inr h) = inr (record {
  taken = p ++ h.taken;
  rest = h.rest;
  ending = h.ending;
  split = ap (λ l. p ++ l) h.split ∙ sym (append_assoc p h.taken h.rest);
  trace = h.trace ∙ ap (λ l. l ++ h.ending) (append_assoc done p h.taken);
  ended = h.ended;
})

pub ended-stops :
    (status : PipelineStatus) (ending : List Mark)
    → IsEnding status ending
    → is_running status ≡ false
ended-stops status ending (inl (e, _)) = rw e refl
ended-stops status ending (inr (e, _, _)) = rw e refl

pub continue-Out :
    (next : Action (Unit {0})) (done p q : List Mark) (r : Result Failure (Unit {0}) × Engine)
    → Out done p r
    → ((s : Engine) → Open (done ++ p) s → Out (done ++ p) q (next s))
    → Out done (p ++ q) (continue next r)
continue-Out next done p q (err e, s) (taken, rest, split, h) rest_Out =
    (taken, rest ++ q, ap (λ l. l ++ q) split ∙ append_assoc taken rest q, h)
continue-Out next done p q (ok u, s) (inl h) rest_Out =
    simp h.running (behind done p q (next s) (rest_Out s h))
continue-Out next done p q (ok u, s) (inr h) rest_Out =
    simp (ended-stops s.run.status h.ending h.ended) (inr (extend done p q s h))
