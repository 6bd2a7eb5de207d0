-- ===== src/Builds/Plans.antt =====
-- Plans, as far as drift and execution read them:
-- packages/stackwarden/src/stackwarden/domain/models.py
use stack_warden.Base.{Text, Option, Dict, List}

pub record PlanDecision : Type 0 where
  pub base_image : Text
  pub base_digest : Option Text
  pub builder : Text
  pub warnings : List Text

pub record PlanArtifact : Type 0 where
  pub tag : Text
  pub fingerprint : Text
  pub labels : Dict Text Text

pub record Plan : Type 0 where
  pub plan_id : Text
  pub profile_id : Text
  pub stack_id : Text
  pub decision : PlanDecision
  pub artifact : PlanArtifact
