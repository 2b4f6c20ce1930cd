-- ===== src/Policy/Records.antt =====
-- data/permission.go and the policy record of data/api.go.
use kratos_core.Prelude.{String}
use kratos_core.Prelude.Int.{ℤ}

pub record MenuRecord : Type 0 where
  pub id : ℤ
  pub api : String

pub record RoleRecord : Type 0 where
  pub id : ℤ
  pub tenant_id : ℤ
  pub code : String
  pub menus : String

pub record TenantRecord : Type 0 where
  pub id : ℤ
  pub code : String

pub record ApiPolicyRecord : Type 0 where
  pub operation : String
  pub method : String

pub record PolicyRecord : Type 0 where
  pub ptype : String
  pub v0 : String
  pub v1 : String
  pub v2 : String
  pub v3 : String
  pub v4 : String
