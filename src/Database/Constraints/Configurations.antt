-- ===== src/Database/Constraints/Configurations.antt =====
-- What the constraints say of configurations: no key is defined twice.
use modura.Prelude.{false, true, List, ◌∷◌, ◌≡◌, ◌==◌, any, unique, arith}
use modura.Database.{ConfigurationDefinition, Db}
use modura.Database.Constraints.{constraints, configurations_hold}

configurations-of-constraints : (db : Db) → constraints db ≡ true → configurations_hold db ≡ true
unfolding constraints
configurations-of-constraints db h = ground arith

keys-of-configurations :
    (db : Db)
    → configurations_hold db ≡ true
    → unique (λ a b. a.key == b.key) db.configuration_definitions ≡ true
unfolding configurations_hold
keys-of-configurations db h = ground arith

-- The key of a definition is that of no other one.
pub key-fresh :
    (db : Db) (row : ConfigurationDefinition) (rows : List ConfigurationDefinition)
    → constraints db ≡ true
    → db.configuration_definitions ≡ row ∷ rows
    → any (λ b. row.key == b.key) rows ≡ false
unfolding unique
key-fresh db row rows h e =
    let keys = keys-of-configurations db (configurations-of-constraints db h) in
    ground (arith, rw e at keys)
