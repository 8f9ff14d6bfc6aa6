-- ===== src/Organization/Service/Requests.antt =====
-- The requests that the organization service takes, and what each is to leave: the store's write and
-- its evidence.
use modura.Prelude.{ℕ, ℤ, String, Char, Bool, true, Option, none, some, ◌≡◌, ◌⊎◌, refl, inl}
use modura.Errors.{Error, Result, ok, err}
use modura.Text.{trim_space}
use modura.Database.{PositionStatus, Db}
use modura.Database.Tx.{Faults, Op}
use modura.Audit.Writing.{IsRecorded}
use modura.Audit.Writing.Evidence.{IsEvidence, recorded-IsEvidence}
use modura.Organization.Types.{WriteContext}
use modura.Organization.History.{
  Write, creates, updates, moves, deletes, adds_position, updates_position, assigns, perform,
}
use modura.Organization.Service.{
  event_of, valid_write, write_audited, normalize_name, create_department, update_department,
  move_department, delete_department, create_position, update_position, assign_user,
}
use modura.Organization.Service.Writes.{HasEvidence}

-- What the service may be asked to change.
pub data Request : Type 0 where
  adds_department : Option String → (name : String) → ℤ → Request
  changes_department : (d name : String) → ℤ → Request
  moves_department : (d parent : String) → Request
  removes_department : (d : String) → Request
  adds_post : (name : String) → Request
  changes_post : (id name : String) → PositionStatus → Request
  places_user : (user d : String) → Option String → Request

abbrev pub action_of : Request → String
action_of (adds_department parent name order) = "organization.department.created"
action_of (changes_department d name order) = "organization.department.updated"
action_of (moves_department d parent) = "organization.department.moved"
action_of (removes_department d) = "organization.department.deleted"
action_of (adds_post name) = "organization.position.created"
action_of (changes_post id name status) = "organization.position.updated"
action_of (places_user user d position) = "organization.user-assigned"

abbrev pub resource_of : Request → String
resource_of (adds_post name) = "position"
resource_of (changes_post id name status) = "position"
resource_of (places_user user d position) = "user"
resource_of _ = "department"

-- The result of a creation is the identifier.
abbrev pub created : Result String × Db → Result (Option String) × Db
created (ok id, db) = (ok (some id), db)
created (err e, db) = (err e, db)

abbrev pub changed : Result (Unit {0}) × Db → Result (Option String) × Db
changed (ok u, db) = (ok none, db)
changed (err e, db) = (err e, db)

abbrev pub answer : Request → String → Option String
answer (adds_department parent name order) id = some id
answer (adds_post name) id = some id
answer _ id = none

module _ (lower : Char → Char) (valid_json : String → Bool) (new_event_id : ℕ → Result String)
    (new_id : ℕ → Result String) (down : Faults) (fuel now : ℕ) (w : WriteContext) where
  -- The service's method for a request.
  abbrev pub serve : Request → Db → Result (Option String) × Db
  serve (adds_department parent name order) db =
      created (
        create_department lower valid_json new_event_id down fuel now new_id w parent name order db)
  serve (changes_department d name order) db =
      changed (update_department lower valid_json new_event_id down fuel now w d name order db)
  serve (moves_department d parent) db =
      changed (move_department lower valid_json new_event_id down fuel now w d parent db)
  serve (removes_department d) db =
      changed (delete_department lower valid_json new_event_id down fuel now w d db)
  serve (adds_post name) db =
      created (create_position lower valid_json new_event_id down fuel now new_id w name db)
  serve (changes_post id name status) db =
      changed (update_position lower valid_json new_event_id down fuel now w id name status db)
  serve (places_user user d position) db =
      changed (assign_user lower valid_json new_event_id down fuel now w user d position db)

  -- The store's write for a request, in the actor's tenant and under the actor's scope.
  abbrev pub write_of : Request → String → Write
  write_of (adds_department parent name order) id =
      creates
        (record {
          id = id;
          tenant_id = w.actor.tenant_id;
          parent_id = parent;
          name = trim_space name;
          normalized_name = normalize_name lower valid_json new_event_id down fuel now name;
          sort_order = order;
          created_at = now;
        })
        w.scope
  write_of (changes_department d name order) id =
      updates w.actor.tenant_id id (trim_space name)
        (normalize_name lower valid_json new_event_id down fuel now name) order w.scope now
  write_of (moves_department d parent) id = moves w.actor.tenant_id id parent w.scope now
  write_of (removes_department d) id = deletes w.actor.tenant_id id w.scope
  write_of (adds_post name) id = adds_position (record {
    id = id;
    tenant_id = w.actor.tenant_id;
    name = trim_space name;
    normalized_name = normalize_name lower valid_json new_event_id down fuel now name;
    created_at = now;
  })
  write_of (changes_post p name status) id =
      updates_position w.actor.tenant_id id (trim_space name)
        (normalize_name lower valid_json new_event_id down fuel now name) status now
  write_of (places_user user d position) id = assigns w.actor.tenant_id id d position w.scope now

  -- The identifier that the request is about: the generated one, or the one that it names.
  abbrev pub IsNamed : Request → String → Type 0
  IsNamed (adds_department parent name order) id = new_id now ≡ ok id
  IsNamed (changes_department d name order) id = id ≡ d
  IsNamed (moves_department d parent) id = id ≡ d
  IsNamed (removes_department d) id = id ≡ d
  IsNamed (adds_post name) id = new_id now ≡ ok id
  IsNamed (changes_post p name status) id = id ≡ p
  IsNamed (places_user user d position) id = id ≡ user

  -- The store's write was done, and on top of it one event of it.
  pub record IsServed (q : Request) (db : Db) (r : Result (Option String)) (db' : Db) : Type 0 where
    pub valid : valid_write w ≡ true
    pub id : String
    pub named : IsNamed q id
    pub between : Db
    pub written : perform down fuel (write_of q id) db ≡ ok (tt, between)
    pub evidence :
        IsEvidence
          (record {
            actor = w.actor.user_id;
            tenant = w.actor.tenant_id;
            action = action_of q;
            resource = resource_of q;
            resource_id = id;
            correlation = w.correlation_id;
            at = now;
            before_state = "";
            after_state = "";
          })
          between
          db'
    pub answered : r ≡ ok (answer q id)

  abbrev pub Served : Request → Db → Result (Option String) → Db → Type 0
  Served q db r db' = IsServed q db r db' ⊎ ((e : Error) × (r ≡ err e) × (db' ≡ db))

  event_of-IsEvidence :
      (action resource id : String) (d d' : Db)
      → IsRecorded (event_of w now action resource id) d d'
      → IsEvidence
          (record {
            actor = w.actor.user_id;
            tenant = w.actor.tenant_id;
            action = action;
            resource = resource;
            resource_id = id;
            correlation = w.correlation_id;
            at = now;
            before_state = "";
            after_state = "";
          })
          d
          d'
  unfolding event_of
  event_of-IsEvidence action resource id d d' k = recorded-IsEvidence _ now d d' refl k

  module _ (q : Request) (db : Db) (r : Result (Option String)) (db' : Db) where
    abbrev pub audited : String → Op (Unit {0})
    audited id =
        write_audited lower valid_json new_event_id down fuel now w (action_of q) (resource_of q) id
          (perform down fuel (write_of q id))

    pub audited-IsServed :
        (id : String)
        → valid_write w ≡ true
        → IsNamed q id
        → HasEvidence lower valid_json new_event_id down fuel now w db
            (action_of q)
            (resource_of q)
            id
            (perform down fuel (write_of q id))
            db'
        → r ≡ ok (answer q id)
        → Served q db r db'
    audited-IsServed id valid named (between, written, recorded) answered = inl (record {
      valid = valid;
      id = id;
      named = named;
      between = between;
      written = written;
      evidence = event_of-IsEvidence (action_of q) (resource_of q) id between db' recorded;
      answered = answered;
    })
