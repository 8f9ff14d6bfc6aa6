-- ===== src/Organization/Service/Audited.antt =====
-- The writes that the organization service offers, one by one: each with its evidence, or undone.
use modura.Prelude.{
  ℕ, String, Char, Bool, true, false, not, ◌||◌, Option, none, some, ◌≡◌, refl, inl, inr, sym,
  subst, ◌∙◌, if◌then◌else◌, blank, arith,
}
use modura.Errors.{Error, message, wrap, Result, ok, err}
use modura.Database.{Db}
use modura.Database.Tx.{Faults, Op, pure, fail, run, labelled_call, and_then}
use modura.Organization.Types.{WriteContext}
use modura.Organization.History.{perform}
use modura.Organization.Service.{
  valid_write, normalize_name, create_department, create_department_as, update_department,
  move_department, delete_department, create_position, create_position_as, update_position,
  assign_user, refuse,
}
use modura.Organization.Service.Writes.{HasEvidence, write_audited_atomic}
use modura.Organization.Service.Requests.{
  Request, adds_department, changes_department, moves_department, removes_department, adds_post,
  changes_post, places_user, action_of, resource_of, created, changed, answer, serve, write_of,
  IsNamed, Served, audited, audited-IsServed,
}

module _ (lower : Char → Char) (valid_json : String → Bool) (new_event_id : ℕ → Result String)
    (new_id : ℕ → Result String) (down : Faults) (fuel now : ℕ) (w : WriteContext) where
  module _ (q : Request) (db : Db) (r : Result (Option String)) (db' : Db) where
    -- The wrapper has left `(m, d)`, which the method answers with `(r, db')`.
    by_wrapper :
        (id : String)
        → valid_write w ≡ true
        → IsNamed lower valid_json new_event_id new_id down fuel now w q id
        → (m : Result (Unit {0})) (d : Db)
        → audited lower valid_json new_event_id new_id down fuel now w q db r db' id db ≡ (m, d)
        → ((m ≡ ok tt) → (r ≡ ok (answer q id)) × (d ≡ db'))
        → ((e : Error) → m ≡ err e → (x : Error) × (r ≡ err x) × (d ≡ db'))
        → Served lower valid_json new_event_id new_id down fuel now w q db r db'
    by_wrapper id valid named m d run_of good bad =
        elim (write_audited_atomic lower valid_json new_event_id down fuel now w db (action_of q)
          (resource_of q) id
          (perform down fuel (write_of lower valid_json new_event_id new_id down fuel now w q id)) m
          d run_of) [
            | inl (done, k) ↦
                let (answered, same) = good done in
                audited-IsServed lower valid_json new_event_id new_id down fuel now w q db r db' id
                  valid named
                  (subst
                    (HasEvidence lower valid_json new_event_id down fuel now w db (action_of q)
                      (resource_of q) id
                      (perform down fuel
                        (write_of lower valid_json new_event_id new_id down fuel now w q id)))
                    same k)
                  answered
            | inr (e, wrong, same) ↦
                let (x, refused, left) = bad e wrong in inr (x, refused, sym left ∙ same)
          ]

    by_change :
        (id : String)
        → valid_write w ≡ true
        → IsNamed lower valid_json new_event_id new_id down fuel now w q id
        → answer q id ≡ none
        → (m : Result (Unit {0})) (d : Db)
        → audited lower valid_json new_event_id new_id down fuel now w q db r db' id db ≡ (m, d)
        → changed (m, d) ≡ (r, db')
        → Served lower valid_json new_event_id new_id down fuel now w q db r db'
    by_change id valid named silent (ok u) d run_of h =
        by_wrapper id valid named (ok u) d run_of (λ k. (cc, cc)) (λ e k. absurd cc)
    by_change id valid named silent (err x) d run_of h =
        by_wrapper id valid named (err x) d run_of (λ k. absurd cc) (λ e k. (x, cc, cc))

    by_guarded :
        (id s : String) (refused : Bool)
        → (refused ≡ false → valid_write w ≡ true)
        → IsNamed lower valid_json new_event_id new_id down fuel now w q id
        → answer q id ≡ none
        → changed (
            (if refused
                then refuse s
                else audited lower valid_json new_event_id new_id down fuel now w q db r db' id)
              db)
          ≡ (r, db')
        → Served lower valid_json new_event_id new_id down fuel now w q db r db'
    by_guarded id s true valid named silent h =
        inr (unfold run fail refuse in (message s, cc h, cc h))
    by_guarded id s false valid named silent h =
        by_change id (valid refl) named silent
          (audited lower valid_json new_event_id new_id down fuel now w q db r db' id db).0
          (audited lower valid_json new_event_id new_id down fuel now w q db r db' id db).1 refl h

    by_creation :
        (label id : String)
        → valid_write w ≡ true
        → IsNamed lower valid_json new_event_id new_id down fuel now w q id
        → answer q id ≡ some id
        → (m : Result (Unit {0})) (d : Db)
        → audited lower valid_json new_event_id new_id down fuel now w q db r db' id db ≡ (m, d)
        → created (labelled_call label (and_then (λ x. (m, d)) (λ u. run (pure (ok id)))) db)
          ≡ (r, db')
        → Served lower valid_json new_event_id new_id down fuel now w q db r db'
    unfolding labelled_call and_then run pure
    by_creation label id valid named silent (ok u) d run_of h =
        by_wrapper id valid named (ok u) d run_of (λ k. (cc, cc)) (λ e k. absurd cc)
    by_creation label id valid named silent (err x) d run_of h =
        by_wrapper id valid named (err x) d run_of (λ k. absurd cc) (λ e k. (wrap label x, cc, cc))

    by_created :
        (label id : String)
        → valid_write w ≡ true
        → IsNamed lower valid_json new_event_id new_id down fuel now w q id
        → answer q id ≡ some id
        → created (
            labelled_call label
              (and_then
                (audited lower valid_json new_event_id new_id down fuel now w q db r db' id)
                (λ u. run (pure (ok id))))
              db)
          ≡ (r, db')
        → Served lower valid_json new_event_id new_id down fuel now w q db r db'
    unfolding labelled_call and_then
    by_created label id valid named silent h =
        by_creation label id valid named silent
          (audited lower valid_json new_event_id new_id down fuel now w q db r db' id db).0
          (audited lower valid_json new_event_id new_id down fuel now w q db r db' id db).1 refl h

    by_generated :
        (label s : String) (refused : Bool) (f : String → Op String)
        → (refused ≡ false → valid_write w ≡ true)
        → (o : Result String) → new_id now ≡ o
        → ((id : String)
            → valid_write w ≡ true
            → new_id now ≡ ok id
            → created (f id db) ≡ (r, db')
            → Served lower valid_json new_event_id new_id down fuel now w q db r db')
        → created
            ((if refused then refuse s else and_then (labelled_call label (run (pure o))) f) db)
          ≡ (r, db')
        → Served lower valid_json new_event_id new_id down fuel now w q db r db'
    unfolding labelled_call and_then run pure fail
    by_generated label s true f valid o made k h = inr (message s, cc h, cc h)
    by_generated label s false f valid (err e) made k h = inr (wrap label e, cc h, cc h)
    by_generated label s false f valid (ok id) made k h = k id (valid refl) made h

  -- Each of the service's writes, whatever it answers: either it was asked for in a valid write
  -- context, the store's write succeeded and one event was added on top of it, with the actor, the
  -- action, the identifier, the request and the time, and the answer is that it is done; or the
  -- answer is an error and the database is as it was.
  pub service_write_audited :
      (q : Request) (db : Db) {r : Result (Option String)} {db' : Db}
      → serve lower valid_json new_event_id new_id down fuel now w q db ≡ (r, db')
      → Served lower valid_json new_event_id new_id down fuel now w q db r db'
  unfolding create_department create_department_as update_department move_department
      delete_department create_position create_position_as update_position assign_user
  service_write_audited (changes_department d name order) db h =
      by_guarded (changes_department d name order) db _ _ d _
        (not (valid_write w)
          || blank d
          || blank (normalize_name lower valid_json new_event_id down fuel now name))
        (λ e. ground arith) refl refl h
  service_write_audited (moves_department d parent) db h =
      by_guarded (moves_department d parent) db _ _ d _
        (not (valid_write w) || blank d || blank parent) (λ e. ground arith) refl refl h
  service_write_audited (removes_department d) db h =
      by_guarded (removes_department d) db _ _ d _ (not (valid_write w) || blank d)
        (λ e. ground arith) refl refl h
  service_write_audited (changes_post p name status) db h =
      by_guarded (changes_post p name status) db _ _ p _
        (not (valid_write w)
          || blank p
          || blank (normalize_name lower valid_json new_event_id down fuel now name))
        (λ e. ground arith) refl refl h
  service_write_audited (places_user user d position) db h =
      by_guarded (places_user user d position) db _ _ user _
        (not (valid_write w) || blank user || blank d) (λ e. ground arith) refl refl h
  service_write_audited (adds_department parent name order) db h =
      by_generated (adds_department parent name order) db _ _ "generate department ID" _
        (not (valid_write w)
          || blank (normalize_name lower valid_json new_event_id down fuel now name))
        (create_department_as lower valid_json new_event_id down fuel now w parent name order)
        (λ e. ground arith) (new_id now) refl
        (λ id valid made k.
          by_created (adds_department parent name order) db _ _ "create department" id valid made
            refl k)
        h
  service_write_audited (adds_post name) db h =
      by_generated (adds_post name) db _ _ "generate position ID" _
        (not (valid_write w)
          || blank (normalize_name lower valid_json new_event_id down fuel now name))
        (create_position_as lower valid_json new_event_id down fuel now w name) (λ e. ground arith)
        (new_id now) refl
        (λ id valid made k.
          by_created (adds_post name) db _ _ "create position" id valid made refl k)
        h
