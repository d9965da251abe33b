-- ===== src/Rules/Audit.antt =====
-- internal/rules/audit.go: the part of an audit event that grading reads.
use kubedrill.Shared.{String, Option, List}

abbrev pub engine_identity : String
engine_identity = "kubedrill:engine"

pub record Actor : Type 0 where
  pub username : String
  pub groups : List String

pub record ObjectRef : Type 0 where
  pub resource : String
  pub namespace : String
  pub name : String
  pub api_group : String
  pub api_version : String
  pub subresource : String

pub record AuditEvent : Type 0 where
  pub audit_id : String
  pub stage : String
  pub level : String
  pub verb : String
  pub user : Actor
  pub impersonated_user : Option Actor
  pub object_ref : ObjectRef
  pub request_object : String
