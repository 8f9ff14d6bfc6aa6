-- ===== src/Examples/Writes.antt =====
-- Runs of the organization service.
use modura.Prelude.{
  ℕ, String, ap, Option, none, Char, Bool, true, ◌≡◌, ◌⊎◌, refl, find, filter, contains,
  update_where, count_where, unique,
}
use modura.Text.{trim_space}
use modura.Errors.{Error, Result, ok, err}
use modura.Database.{Db}
use modura.Database.Constraints.{constraints}
use modura.Database.Tx.{
  run, control, query, exec_or, ◌>>=◌, pure, fail, labelled, from_result, within_transaction,
}
use modura.Organization.Types.{WriteContext, valid_scope}
use modura.Organization.Tree.{
  levels, children, ids, parent_of, subtree, department_visible, actor_descendants,
  actor_departments,
}
use modura.Organization.Departments
use modura.Organization.Service.{write_audited, move_department}
use modura.Organization.Service.Requests.{Request, moves_department, changed, IsServed}
use modura.Organization.Service.Audited.{service_write_audited}
use modura.Audit
use modura.Examples.{up, sample}
use modura.Examples.Departments.{whole}

abbrev same_rune : Char → Char
same_rune c = c

abbrev any_json : String → Bool
any_json s = true

abbrev event_id : ℕ → Result String
event_id at = ok "e1"

abbrev request : WriteContext
request = record {
  actor = record { tenant_id = "t1"; user_id = "u1"; session_id = "s1" };
  correlation_id = "c1";
  scope = whole;
}

abbrev moved : Db
moved = (move_department same_rune any_json event_id up 3 50 request "sales" "lab" sample).1

moving :
    move_department same_rune any_json event_id up 3 50 request "sales" "lab" sample
    ≡ (ok tt, moved)
unfolding move_department valid_scope write_audited Audit.record_tenant_write trim_space
    within_transaction labelled from_result Departments.move_department
    Departments.visible_department department_visible actor_descendants actor_departments
    Departments.visible_query levels children ids filter subtree parent_of run control query exec_or
    ◌>>=◌ pure fail find update_where count_where constraints unique contains
moving = refl

abbrev fresh_id : ℕ → Result String
fresh_id at = ok "d9"

abbrev asked : Request
asked = moves_department "sales" "lab"

abbrev answer : Result (Option String)
answer = ok none

service_write_audited_example :
    IsServed same_rune any_json event_id fresh_id up 3 50 request asked sample answer moved
    ⊎ ((e : Error) × (answer ≡ err e) × (moved ≡ sample))
service_write_audited_example =
    service_write_audited same_rune any_json event_id fresh_id up 3 50 request asked sample
      (ap changed moving)
