-- ===== src/Organization/Types.antt =====
-- backend/internal/modules/organization/types.go and scope.go.
use modura.Prelude.{ℕ, ℤ, String, Bool, not, ◌&&◌, ◌||◌, Option, List, blank, length, ltb}
use modura.Database.{PositionStatus}
use modura.Identity.Types.{Actor}

-- `valid` of PositionStatus holds of both values of the type.
pub record Department : Type 0 where
  pub id : String
  pub tenant_id : String
  pub parent_id : Option String
  pub name : String
  pub normalized_name : String
  pub sort_order : ℤ
  pub created_at : ℕ

pub record DepartmentView : Type 0 where
  pub id : String
  pub parent_id : Option String
  pub name : String
  pub sort_order : ℤ

pub record Position : Type 0 where
  pub id : String
  pub tenant_id : String
  pub name : String
  pub normalized_name : String
  pub created_at : ℕ

pub record PositionView : Type 0 where
  pub id : String
  pub name : String
  pub status : PositionStatus

pub record DataScope : Type 0 where
  pub actor_id : String
  pub all : Bool
  pub self : Bool
  pub department : Bool
  pub department_and_descendants : Bool
  pub custom_department_ids : List String

unfoldable pub valid_scope : DataScope → Bool
valid_scope s =
    not (blank s.actor_id)
    && (s.all
        || s.self
        || s.department
        || s.department_and_descendants
        || ltb 0 (length s.custom_department_ids))

pub record WriteContext : Type 0 where
  pub actor : Actor
  pub correlation_id : String
  pub scope : DataScope
