-- ===== src/Engine.antt =====
-- src/engine.rs: an engine that keeps the mode in which Core made it, with or without a schema.
pub mod Prepare
pub mod Mode
use treetop_bundle.Base.{String, Bool, true, false, Option, List}
use treetop_bundle.Error.{Result}

-- The types that Core's engines share.
pub record CoreTypes : Type 1 where
  pub LabelRegistry : Type 0
  pub PolicyVersion : Type 0
  pub PolicyStoreId : Type 0
  pub PolicyCandidates : Type 0
  pub Decision : Type 0
  pub PolicyError : Type 0
  pub Request : Type 0
  pub RequestContext : Type 0

-- Core's `PolicyEngine` and `EvaluationSession` of one mode.
pub record PolicyEngine (T : CoreTypes) : Type 1 where
  pub Engine : Type 0
  pub Session : Type 0
  pub with_label_registry : Engine → T.LabelRegistry → Engine
  pub session : Engine → Session
  pub current_version : Engine → T.PolicyVersion
  pub policy_store_ids : Engine → Option (List T.PolicyStoreId)
  pub list_policies_for_user :
      Engine → String → List String → List String → Result T.PolicyError T.PolicyCandidates
  pub evaluate : Engine → T.Request → Result T.PolicyError T.Decision
  pub evaluate_with_context :
      Engine → T.Request → T.RequestContext → Result T.PolicyError T.Decision
  pub version : Session → T.PolicyVersion
  pub evaluate_session : Session → T.Request → Result T.PolicyError T.Decision
  pub evaluate_session_with_context :
      Session → T.Request → T.RequestContext → Result T.PolicyError T.Decision

module _ (T : CoreTypes) (Free Enforcing : PolicyEngine T) where
  pub data PreparedEngine : Type 0 where
    schema_free : Free.Engine → PreparedEngine
    schema_enforcing : Enforcing.Engine → PreparedEngine

  pub data PreparedEvaluationSession : Type 0 where
    free_session : Free.Session → PreparedEvaluationSession
    enforcing_session : Enforcing.Session → PreparedEvaluationSession

  -- `PreparedEngine::with_label_registry`
  unfoldable pub with_label_registry : PreparedEngine → T.LabelRegistry → PreparedEngine
  with_label_registry (schema_free e) registry = schema_free (Free.with_label_registry e registry)
  with_label_registry (schema_enforcing e) registry =
      schema_enforcing (Enforcing.with_label_registry e registry)

  -- `PreparedEngine::session`
  unfoldable pub session : PreparedEngine → PreparedEvaluationSession
  session (schema_free e) = free_session (Free.session e)
  session (schema_enforcing e) = enforcing_session (Enforcing.session e)

  -- `PreparedEngine::current_version`
  unfoldable pub current_version : PreparedEngine → T.PolicyVersion
  current_version (schema_free e) = Free.current_version e
  current_version (schema_enforcing e) = Enforcing.current_version e

  -- `PreparedEngine::policy_store_ids`
  unfoldable pub policy_store_ids : PreparedEngine → Option (List T.PolicyStoreId)
  policy_store_ids (schema_free e) = Free.policy_store_ids e
  policy_store_ids (schema_enforcing e) = Enforcing.policy_store_ids e

  -- `PreparedEngine::list_policies_for_user`
  unfoldable pub list_policies_for_user :
      PreparedEngine → String → List String → List String → Result T.PolicyError T.PolicyCandidates
  list_policies_for_user (schema_free e) user groups namespace =
      Free.list_policies_for_user e user groups namespace
  list_policies_for_user (schema_enforcing e) user groups namespace =
      Enforcing.list_policies_for_user e user groups namespace

  -- `PreparedEngine::evaluate`
  unfoldable pub evaluate : PreparedEngine → T.Request → Result T.PolicyError T.Decision
  evaluate (schema_free e) request = Free.evaluate e request
  evaluate (schema_enforcing e) request = Enforcing.evaluate e request

  -- `PreparedEngine::evaluate_with_context`
  unfoldable pub evaluate_with_context :
      PreparedEngine → T.Request → T.RequestContext → Result T.PolicyError T.Decision
  evaluate_with_context (schema_free e) request context =
      Free.evaluate_with_context e request context
  evaluate_with_context (schema_enforcing e) request context =
      Enforcing.evaluate_with_context e request context

  -- `PreparedEvaluationSession::version`
  unfoldable pub version : PreparedEvaluationSession → T.PolicyVersion
  version (free_session s) = Free.version s
  version (enforcing_session s) = Enforcing.version s

  -- `PreparedEvaluationSession::evaluate`
  unfoldable pub evaluate_session :
      PreparedEvaluationSession → T.Request → Result T.PolicyError T.Decision
  evaluate_session (free_session s) request = Free.evaluate_session s request
  evaluate_session (enforcing_session s) request = Enforcing.evaluate_session s request

  -- `PreparedEvaluationSession::evaluate_with_context`
  unfoldable pub evaluate_session_with_context :
      PreparedEvaluationSession → T.Request → T.RequestContext → Result T.PolicyError T.Decision
  evaluate_session_with_context (free_session s) request context =
      Free.evaluate_session_with_context s request context
  evaluate_session_with_context (enforcing_session s) request context =
      Enforcing.evaluate_session_with_context s request context

  -- The mode that the engine keeps.
  abbrev pub is_enforcing : PreparedEngine → Bool
  is_enforcing (schema_free e) = false
  is_enforcing (schema_enforcing e) = true
