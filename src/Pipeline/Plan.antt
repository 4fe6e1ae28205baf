-- ===== src/Pipeline/Plan.antt =====
-- What a run does, against a plan that is written down beforehand: for each stage that is wanted, its
-- start, its completion and, at one stage, the injection.

use app_stt_aio.Base.{
  Bool, Bool-cases, List, [], ap, false, if◌then◌else◌, inl, inr, map, nat_eq, refl, string_eq,
  true, ℕ, ◌++◌, ◌==◌, ◌∙◌, ◌∷◌, ◌≡◌, ◌⊎◌, Option, String, none, some, subst,
}
use mathlib.Core.List.{append_assoc}
use app_stt_aio.Base.Result.{Result, ok, err}
use app_stt_aio.Pipeline.{
  PipelineStatus, PipelineMode, StageArtifact, Failure, Event, stage_started, stage_completed,
  inject_requested, pipeline_error, pipeline_finished, Engine, Services, Row, emit, canceled_now,
  asked, cancel, fail, persist, set_artifact, inject_text, inject_artifact, inject_at, injected,
  added, InjectOutcome,
}
use app_stt_aio.Pipeline.Stages.{complete_stage}

-- An event by its kind and its stage.
pub data Mark : Type 0 where
  start complete inject fault : ℕ → Mark
  finish : PipelineStatus → Mark

abbrev pub mark : Event → Mark
mark (stage_started k) = start k
mark (stage_completed a) = complete a.stage
mark (inject_requested a) = inject a.stage
mark (pipeline_error k) = fault k
mark (pipeline_finished r) = finish r.status

abbrev pub marks : Engine → List Mark
marks s = map mark s.events

-- The plan of a stage, and of all stages from a first one.
abbrev pub stage_plan : PipelineMode → ℕ → List Mark
stage_plan mode k = start k ∷ complete k ∷ (if mode.inject_stage == k then inject k ∷ [] else [])

abbrev pub when_wanted : Bool → List Mark → List Mark
when_wanted true l = l
when_wanted false l = []

-- The run goes on, and this is what it has done.
pub record Open (done : List Mark) (s : Engine) : Type 0 where
  pub running : s.run.status ≡ PipelineStatus.running
  pub trace : marks s ≡ done

-- How a run that did not get to its end tells so.
abbrev pub IsEnding : PipelineStatus → List Mark → Type 0
IsEnding status ending =
    ((status ≡ PipelineStatus.canceled) × (ending ≡ finish PipelineStatus.canceled ∷ []))
    ⊎ ((status ≡ PipelineStatus.error)
        × (k : ℕ) × (ending ≡ fault k ∷ finish PipelineStatus.error ∷ []))

-- The run has ended within a piece of the plan.
pub record Stopped (done piece : List Mark) (s : Engine) : Type 0 where
  pub taken : List Mark
  pub rest : List Mark
  pub ending : List Mark
  pub split : piece ≡ taken ++ rest
  pub trace : marks s ≡ done ++ taken ++ ending
  pub ended : IsEnding s.run.status ending

-- What comes of a piece of the plan: all of it, an end within it, or an exception within it.
abbrev pub Out : List Mark → List Mark → Result Failure (Unit {0}) × Engine → Type 0
Out done piece (ok u, s) = Open (done ++ piece) s ⊎ Stopped done piece s
Out done piece (err e, s) =
    (taken : List Mark) × (rest : List Mark) × (piece ≡ taken ++ rest) × Open (done ++ taken) s

pub map-append : (es fs : List Event) → map mark (es ++ fs) ≡ map mark es ++ map mark fs
map-append [] fs = refl
map-append (e ∷ es) fs = ap (λ l. mark e ∷ l) (map-append es fs)

marks-emit : (e : Event) (s : Engine) → marks (emit e s) ≡ marks s ++ mark e ∷ []
unfolding emit
marks-emit e s = map-append s.events (e ∷ [])

pub emit-Open :
    (e : Event) (done : List Mark) (s : Engine)
    → Open done s
    → Open (done ++ mark e ∷ []) (emit e s)
emit-Open e done s h = record {
  running = unfold emit in h.running;
  trace = marks-emit e s ∙ ap (λ l. l ++ mark e ∷ []) h.trace;
}

pub cancel-Stopped :
    (k : ℕ) (done piece taken rest : List Mark) (s : Engine)
    → piece ≡ taken ++ rest
    → Open (done ++ taken) s
    → Stopped done piece (cancel k s)
unfolding cancel emit
cancel-Stopped k done piece taken rest s split h = record {
  taken = taken;
  rest = rest;
  ending = finish PipelineStatus.canceled ∷ [];
  split = split;
  trace = map-append s.events (_ ∷ []) ∙ ap (λ l. l ++ finish PipelineStatus.canceled ∷ []) h.trace;
  ended = inl (refl, refl);
}

pub fail-Stopped :
    (k : ℕ) (e : Failure) (done piece taken rest : List Mark) (s : Engine)
    → piece ≡ taken ++ rest
    → Open (done ++ taken) s
    → Stopped done piece (fail k e s)
unfolding fail emit
fail-Stopped k e done piece taken rest s split h = record {
  taken = taken;
  rest = rest;
  ending = fault k ∷ finish PipelineStatus.error ∷ [];
  split = split;
  trace =
      map-append (s.events ++ pipeline_error k ∷ []) (_ ∷ [])
      ∙ ap (λ l. l ++ finish PipelineStatus.error ∷ [])
          (map-append s.events (pipeline_error k ∷ []) ∙ ap (λ l. l ++ fault k ∷ []) h.trace)
      ∙ append_assoc (done ++ taken) (fault k ∷ []) (finish PipelineStatus.error ∷ []);
  ended = inr (refl, k, refl);
}

pub set_artifact-Open :
    (a : StageArtifact) (done : List Mark) (s : Engine) → Open done s → Open done (set_artifact a s)
set_artifact-Open a done s h = record {
  running = unfold set_artifact in h.running;
  trace = unfold set_artifact in h.trace;
}

called-Open :
    (called : Bool) (text : String) (done : List Mark) (s : Engine)
    → Open done s
    → Open done (if called then record s { injections = s.injections ++ text ∷ [] } else s)
called-Open true text done s h = record { running = h.running; trace = h.trace }
called-Open false text done s h = h

injected-Out :
    (a : StageArtifact) (r : Result Failure InjectOutcome) (done : List Mark) (s : Engine)
    → Open (done ++ start a.stage ∷ complete a.stage ∷ []) s
    → Out done (start a.stage ∷ complete a.stage ∷ inject a.stage ∷ []) (injected a r s)
injected-Out a (err e) done s h =
    (start a.stage ∷ complete a.stage ∷ [], inject a.stage ∷ [], refl, h)
injected-Out a (ok r) done s h =
    let a' = record a { inject_result = some r } in
    let all = start a.stage ∷ complete a.stage ∷ inject a.stage ∷ [] in
    inl (
      set_artifact-Open a' (done ++ all) (emit (inject_requested a') s) (
        subst (λ l. Open l (emit (inject_requested a') s))
          (append_assoc done (start a.stage ∷ complete a.stage ∷ []) (inject a.stage ∷ []))
          (emit-Open (inject_requested a') (done ++ start a.stage ∷ complete a.stage ∷ []) s h)))

inject_artifact-Out :
    (v : Services) (a : StageArtifact) (done : List Mark) (s : Engine)
    → Open (done ++ start a.stage ∷ complete a.stage ∷ []) s
    → Out done (start a.stage ∷ complete a.stage ∷ inject a.stage ∷ []) (inject_artifact v a s)
unfolding inject_artifact
inject_artifact-Out v a done s h =
    let (called, r) = inject_text v a.text in
    injected-Out a r done
      (if called then record s { injections = s.injections ++ a.text ∷ [] } else s)
      (called-Open called a.text (done ++ start a.stage ∷ complete a.stage ∷ []) s h)

inject_at-Out :
    (v : Services) (mode : PipelineMode) (a : StageArtifact) (done : List Mark) (s : Engine)
    → Open (done ++ (start a.stage ∷ complete a.stage ∷ [])) s
    → Out done (stage_plan mode a.stage) (inject_at v a.stage mode a s)
unfolding inject_at
inject_at-Out v mode a done s h = elim (Bool-cases (mode.inject_stage == a.stage)) [
  | inl here ↦ rw here (inject_artifact-Out v a done s h)
  | inr elsewhere ↦ rw elsewhere (inl h)
]

pub asked-Open : (done : List Mark) (s : Engine) → Open done s → Open done (asked s)
asked-Open done s h = record {
  running = unfold asked in h.running;
  trace = unfold asked in h.trace;
}

-- From the row of the artifact on.
pub complete_stage-Out :
    (v : Services) (mode : PipelineMode) (a : StageArtifact)
    (r : Result Failure (Unit {0}) × Engine) (done : List Mark)
    → Open (done ++ start a.stage ∷ []) r.1
    → Out done (stage_plan mode a.stage) (complete_stage v mode a r)
complete_stage-Out v mode a (err e, s) done h = (start a.stage ∷ [], _, refl, h)
complete_stage-Out v mode a (ok u, s) done h =
    let s' = emit (stage_completed a) (set_artifact a s) in
    let kept =
      subst (λ l. Open l s') (append_assoc done (start a.stage ∷ []) (complete a.stage ∷ []))
        (emit-Open (stage_completed a) (done ++ start a.stage ∷ []) (set_artifact a s)
          (set_artifact-Open a (done ++ start a.stage ∷ []) s h)) in
    let next = asked-Open (done ++ start a.stage ∷ complete a.stage ∷ []) s' kept in
    elim (Bool-cases (canceled_now s'.answers)) [
      | inl stop ↦ rw stop (
          inr (
            cancel-Stopped a.stage done (stage_plan mode a.stage)
              (start a.stage ∷ complete a.stage ∷ []) _ (asked s') refl next))
      | inr go ↦ rw go (inject_at-Out v mode a done (asked s') next)
    ]

added-Open :
    (o : Option Failure) (row : Row) (done : List Mark) (s : Engine)
    → Open done s
    → Open done (added o row s).1
added-Open none row done s h = record { running = h.running; trace = h.trace }
added-Open (some e) row done s h = h

pub persist-Open :
    (v : Services) (a : StageArtifact) (snapshot : Option String) (done : List Mark) (s : Engine)
    → Open done s
    → Open done (persist v a snapshot s).1
unfolding persist
persist-Open v a snapshot done s h =
    added-Open (v.add (record { artifact = a; prompt_snapshot = snapshot })) _ done s h
