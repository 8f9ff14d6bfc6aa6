-- ===== src/Examples/Histories.antt =====
-- A history of the organization: a department is created, moved and deleted.
use modura.Prelude.{
  some, ◌≡◌, refl, pos, find, filter, contains, update_where, delete_where, count_where, unique,
}
use modura.Errors.{ok}
use modura.Database.{Db}
use modura.Database.Constraints.{constraints}
use modura.Database.Tx.{run, control, query, exec_or, ◌>>=◌, pure, fail, within_transaction}
use modura.Organization.Types.{Department}
use modura.Organization.Tree.{
  levels, children, ids, parent_of, subtree, department_visible, actor_descendants,
  actor_departments,
}
use modura.Organization.Tree.Forest.{IsForest}
use modura.Organization.Departments.{
  create_department, move_department, delete_department, visible_department, visible_query,
}
use modura.Organization.History.{Write, creates, moves, deletes, perform, start, next}
use modura.Organization.History.Isolation.{IsUntouched, KeepsRest, write_isolated}
use modura.Organization.History.Forests.{History-IsForest}
use modura.Examples.{up, sample}
use modura.Examples.Departments.{whole, sample-IsForest}

abbrev office : Department
office = record {
  id = "office";
  tenant_id = "t1";
  parent_id = some "sales";
  name = "Office";
  normalized_name = "office";
  sort_order = pos 1;
  created_at = 50;
}

abbrev creation : Write
creation = creates office whole

abbrev removal : Write
removal = deletes "t1" "office" whole

abbrev created : Db
created = (within_transaction up (perform up 3 creation) sample).1

creating : within_transaction up (perform up 3 creation) sample ≡ (ok tt, created)
unfolding within_transaction create_department visible_department department_visible
    actor_descendants actor_departments visible_query levels filter run control exec_or ◌>>=◌ pure
    fail constraints unique contains
creating = refl

abbrev relocation : Write
relocation = moves "t1" "office" "lab" whole 60

abbrev moved : Db
moved = (within_transaction up (perform up 3 relocation) created).1

moving : within_transaction up (perform up 3 relocation) created ≡ (ok tt, moved)
unfolding within_transaction create_department move_department visible_department department_visible
    actor_descendants actor_departments visible_query levels children ids filter subtree parent_of
    run control query exec_or ◌>>=◌ pure fail find update_where count_where constraints unique
    contains
moving = refl

abbrev removed : Db
removed = (within_transaction up (perform up 3 removal) moved).1

removing : within_transaction up (perform up 3 removal) moved ≡ (ok tt, removed)
unfolding within_transaction create_department move_department delete_department visible_department
    department_visible actor_descendants actor_departments visible_query levels children ids filter
    subtree parent_of run control query exec_or ◌>>=◌ pure fail find update_where delete_where
    count_where constraints unique contains
removing = refl

History-IsForest_example : IsForest "t1" removed.departments
History-IsForest_example =
    History-IsForest "t1" sample-IsForest
      (next up 3 removal (next up 3 relocation (next up 3 creation start creating) moving) removing)

write_isolated_example : IsUntouched "t2" sample created × KeepsRest sample created
write_isolated_example = write_isolated up 3 "t2" sample creation created refl creating
