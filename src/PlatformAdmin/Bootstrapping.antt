-- ===== src/PlatformAdmin/Bootstrapping.antt =====
-- `Bootstrap` creates one platform administrator, once.
use modura.Prelude.{ℕ, String, Bool, true, false, List, [], ◌∷◌, ◌≡◌, ◌⊎◌, inl, inr, refl, ap, any}
use modura.Errors.{PlatformAdminError, platformadmin, Error, cause, driver, Result, ok, err}
use modura.Database.{PlatformAdministrator, Db}
use modura.Database.Tx.{Faults}
use modura.Database.Tx.Rules.{
  Ensures, ensures_pure, ensures_fail, then_control, then_query, then_exec, fails_then_control,
  fails_then_query,
}
use modura.Database.Tx.Runs.{run-ensures, run-splits}
use modura.Database.Tx.Failures.{Fails, fails_fail}
use modura.PlatformAdmin.{administrator_row, bootstrap, insert_first}

abbrev pub IsRefusal : Error → Type 0
IsRefusal e = (e ≡ platformadmin PlatformAdminError.bootstrap_complete) ⊎ (cause e ≡ driver)

none_there : {A : Type 0} (rows : List A) → any (λ a. true) rows ≡ false → rows ≡ []
none_there [] h = refl
none_there (x ∷ rows) h = cc

module _ (down : Faults) (id username normalized hash : String) (now : ℕ) (db : Db) where
  abbrev row : PlatformAdministrator
  row = administrator_row id username normalized hash now

  abbrev First : Result (Unit {0}) → Db → Type 0
  First r db' = (db.platform_administrators ≡ []) × (db'.platform_administrators ≡ row ∷ [])

  insert_first-ensures :
      (b : Bool)
      → any (λ a. true) db.platform_administrators ≡ b
      → Ensures (insert_first down row b) db First
  unfolding insert_first
  insert_first-ensures true h = ensures_fail _
  insert_first-ensures false h =
      let empty = none_there db.platform_administrators h in
      then_exec _ _ _ _ _ _
        (then_control _ _ _ (ensures_pure _ (empty, ap (λ rows. row ∷ rows) empty)))

  bootstrap_creates :
      {db' : Db}
      → bootstrap down id username normalized hash now db ≡ (ok tt, db')
      → First (ok tt) db'
  unfolding bootstrap
  bootstrap_creates done =
      run-ensures
        (then_control _ _ _ (then_control _ _ _ (then_query _ _ _ _ (insert_first-ensures _ refl))))
        done

  insert_first-refused : (b : Bool) → b ≡ true → Ensures (insert_first down row b) db (λ r d. ⊥)
  unfolding insert_first
  insert_first-refused true h = ensures_fail _
  insert_first-refused false h = cc

  insert_first-fails : (b : Bool) → b ≡ true → Fails (insert_first down row b) db IsRefusal
  unfolding insert_first
  insert_first-fails true h = fails_fail _ (inl refl)
  insert_first-fails false h = cc

  -- Where there is an administrator, nothing is created.
  bootstrap_refused :
      {r : Result (Unit {0})} {db' : Db}
      → any (λ a. true) db.platform_administrators ≡ true
      → bootstrap down id username normalized hash now db ≡ (r, db')
      → (e : Error) × (r ≡ err e) × (db' ≡ db) × IsRefusal e
  unfolding bootstrap
  bootstrap_refused {r} {db'} h done =
      elim (run-splits {P = λ r d. ⊥}
        (then_control _ _ _ (then_control _ _ _ (then_query _ _ _ _ (insert_first-refused _ h))))
        (fails_then_control _ _ _ (inr refl) (
          fails_then_control _ _ _ (inr refl)
            (fails_then_query _ _ _ _ (inr refl) (insert_first-fails _ h))))
        done) [ inl never ↦ absurd never | inr refused ↦ refused ]

-- A bootstrap that succeeds found no administrator and leaves exactly the one that it creates, active
-- and under the given name and hash; every later call, whatever its arguments, changes nothing and
-- reports that the bootstrap is complete, or an error of the driver.
pub bootstrap_once :
    (down down' : Faults) (id username normalized hash id' username' normalized' hash' : String)
    (now now' : ℕ) (db : Db) {db' db'' : Db} {r : Result (Unit {0})}
    → bootstrap down id username normalized hash now db ≡ (ok tt, db')
    → bootstrap down' id' username' normalized' hash' now' db' ≡ (r, db'')
    → (db.platform_administrators ≡ [])
      × (db'.platform_administrators ≡ administrator_row id username normalized hash now ∷ [])
      × ((e : Error) × (r ≡ err e) × (db'' ≡ db') × IsRefusal e)
bootstrap_once down down' id username normalized hash id' username' normalized' hash' now now' db
      {db'} done again =
    let (empty, one) = bootstrap_creates down id username normalized hash now db done in
    (
      empty,
      one,
      bootstrap_refused down' id' username' normalized' hash' now' db' (ap (any (λ a. true)) one)
          again,
    )
