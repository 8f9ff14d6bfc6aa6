-- ===== src/Settings/Types.antt =====
-- backend/internal/modules/settings/types.go. The desired state of a dictionary carries its owner: a
-- tenant (`DictionaryWrite`), or none for a global one (`GlobalDictionaryWrite`).
use modura.Prelude.{ℕ, ℤ, String, Bool, Option, none, some, List, []}
use modura.Identity.Types.{Actor}
use modura.PlatformAdmin.{PlatformActor}

pub record DictionaryItem : Type 0 where
  pub id : String
  pub code : String
  pub label : String
  pub sort_order : ℤ
  pub enabled : Bool

pub record Dictionary : Type 0 where
  pub id : String
  pub code : String
  pub name : String
  pub source : String
  pub version : ℕ
  pub items : List DictionaryItem

-- settings.Dictionary{}
abbrev pub no_dictionary : Dictionary
no_dictionary = record { id = ""; code = ""; name = ""; source = ""; version = 0; items = [] }

pub record Configuration : Type 0 where
  pub id : String
  pub key : String
  pub name : String
  pub value_type : String
  pub tenant_overridable : Bool
  pub source : String
  pub version : ℕ
  pub value : String

pub record WriteContext : Type 0 where
  pub actor : Actor
  pub correlation_id : String

pub record PlatformWriteContext : Type 0 where
  pub actor : PlatformActor
  pub reason : String
  pub correlation_id : String

pub record DictionaryWrite : Type 0 where
  pub owner : Option String
  pub id : String
  pub code : String
  pub name : String
  pub expected_version : ℕ
  pub items : List DictionaryItem
  pub occurred_at : ℕ

pub record ConfigurationWrite : Type 0 where
  pub tenant_id : String
  pub key : String
  pub expected_version : ℕ
  pub value : String
  pub occurred_at : ℕ

pub record GlobalConfigurationWrite : Type 0 where
  pub id : String
  pub key : String
  pub name : String
  pub value_type : String
  pub tenant_overridable : Bool
  pub expected_version : ℕ
  pub value : String
  pub occurred_at : ℕ

-- The column that says where a row comes from.
abbrev pub source_of : Option String → String
source_of none = "global"
source_of (some t) = "tenant"
