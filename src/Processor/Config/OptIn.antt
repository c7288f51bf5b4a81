-- ===== src/Processor/Config/OptIn.antt =====
-- When a processor has an AI client.
use mathlib.Core.Path.{subst}
use serverless_error_ingest.Processor.Ai.{AiClient}
use serverless_error_ingest.Processor.Config.{
  ProcessorDeps, or_default_model, ai_client, new_default_deps,
}
use serverless_error_ingest.Base.{
  ◌≡◌, refl, sym, ap, ◌∙◌, ◌≢◌, ◌↔◌, inl, inr, Bool, true, not, ◌&&◌, ◌||◌, Option, none, some, [],
  ◌∷◌, arith, Bool-cases, Bytes, codes, equal, equal_iff, is_empty, Result, ok, err-ne-ok,
  true-ne-false,
}

-- The environment allows the AI, and names its key and its endpoint.
pub record IsOptedIn (env : Bytes → Bytes) : Type 0 where
  pub key : env (codes "AI_API_KEY") ≢ []
  pub endpoint : env (codes "AI_ENDPOINT") ≢ []
  pub allowed : env (codes "PROJECT_ALLOW_AI") ≡ codes "true"

-- The client is the environment's, with a model that is not empty.
pub record IsClient (env : Bytes → Bytes) (client : AiClient) : Type 0 where
  pub endpoint : client.endpoint ≡ env (codes "AI_ENDPOINT")
  pub key : client.key ≡ env (codes "AI_API_KEY")
  pub model : client.model ≢ []

-- There is a client, the environment's, where it opts in, and none where it does not.
pub data Decides (env : Bytes → Bytes) (ai : Option AiClient) : Type 0 where
  opted_in :
      (client : AiClient) → ai ≡ some client → IsOptedIn env → IsClient env client → Decides env ai
  opted_out : ai ≡ none → ¬ IsOptedIn env → Decides env ai

abbrev opts_in : (Bytes → Bytes) → Bool
opts_in env =
    not (is_empty (env (codes "AI_API_KEY")))
    && (not (is_empty (env (codes "AI_ENDPOINT")))
        && equal (env (codes "PROJECT_ALLOW_AI")) (codes "true"))

not_empty_iff : (s : Bytes) → (not (is_empty s) ≡ true) ↔ (s ≢ [])
unfolding is_empty
not_empty_iff [] = (λ h. cc, λ h. absurd (h refl))
not_empty_iff (c ∷ s) = (λ h e. cc, λ h. refl)

and_both : (a b c : Bool) → (a && (b && c)) ≡ true → (a ≡ true) × (b ≡ true) × (c ≡ true)
and_both a b c h = ground arith

opts_in_iff : (env : Bytes → Bytes) → (opts_in env ≡ true) ↔ IsOptedIn env
opts_in_iff env = (
  λ h.
      let parts = and_both _ _ _ h in
      record {
        key = (not_empty_iff (env (codes "AI_API_KEY"))).0 parts.0;
        endpoint = (not_empty_iff (env (codes "AI_ENDPOINT"))).0 parts.1;
        allowed = (equal_iff (env (codes "PROJECT_ALLOW_AI")) (codes "true")).0 parts.2;
      },
  λ o.
      rw
        (
          (not_empty_iff (env (codes "AI_API_KEY"))).1 o.key,
          (not_empty_iff (env (codes "AI_ENDPOINT"))).1 o.endpoint,
          (equal_iff (env (codes "PROJECT_ALLOW_AI")) (codes "true")).1 o.allowed,
        )
        refl,
)

or_default_model-ne-nil : (model : Bytes) → or_default_model model ≢ []
unfolding is_empty
or_default_model-ne-nil [] = λ h. cc
or_default_model-ne-nil (c ∷ s) = λ h. cc

ai_client-Decides : (env : Bytes → Bytes) → Decides env (ai_client env)
unfolding ai_client
ai_client-Decides env = elim (Bool-cases (opts_in env)) [
  | inl opts ↦ rw opts (
      opted_in _ refl ((opts_in_iff env).0 opts) (record {
        endpoint = refl;
        key = refl;
        model = or_default_model-ne-nil (env (codes "AI_MODEL"));
      }))
  | inr out ↦
      rw out (opted_out refl (λ o. absurd (true-ne-false (sym ((opts_in_iff env).1 o) ∙ out))))
]

ok-ai :
    {d : ProcessorDeps} (e : ProcessorDeps)
    → ◌≡◌ {A = Result Bytes ProcessorDeps} (ok d) (ok e)
    → d.ai ≡ e.ai
ok-ai {d} e h = let same : d ≡ e = cc in ap (λ (x : ProcessorDeps). x.ai) same

-- A processor that has started has an AI client exactly where the environment names a key and an endpoint
-- and PROJECT_ALLOW_AI is true; the client then has that endpoint and key, and a model.
pub new_default_deps-Decides :
    (load : Option Bytes) (env : Bytes → Bytes) (d : ProcessorDeps)
    → new_default_deps load env ≡ ok d
    → Decides env d.ai
unfolding new_default_deps
new_default_deps-Decides (some e) env d h = cc
new_default_deps-Decides none env d h =
    elim (Bool-cases
      (is_empty (env (codes "EVENTS_TABLE")) || is_empty (env (codes "RAW_BUCKET")))) [
        | inl lacks ↦ absurd (err-ne-ok (rw lacks at h))
        | inr full ↦
            let same : ai_client env ≡ d.ai = ok-ai d (rw full at h) in
            subst (Decides env) same (ai_client-Decides env)
      ]
