-- ===== src/Json.antt =====
-- The cJSON library, as the programs use it: what its accessors answer, for any type of items.
use offs.Base.{◌>>=◌, ℕ, ℤ, Bool, Option, Bytes}

pub record Json (Item : Type 0) : Type 0 where
  -- cJSON_GetObjectItem
  pub get : Item → Bytes → Option Item
  -- cJSON_IsString, and then `valuestring`
  pub text : Item → Option Bytes
  -- cJSON_IsNumber, and then `valueint`, `(uint32_t)valuedouble` and `(size_t)valuedouble`
  pub int : Item → Option ℤ
  pub uint32 : Item → Option ℕ
  pub size : Item → Option ℕ
  -- cJSON_IsBool, and then cJSON_IsTrue
  pub flag : Item → Option Bool

module _ {Item : Type 0} (J : Json Item) where
  -- A field of a section, read by one of the accessors; a missing item is of no kind.
  abbrev pub section_field : {A : Type 0} → (Item → Option A) → Item → Bytes → Bytes → Option A
  section_field kind root section field = do
    part ← J.get root section
    value ← J.get part field
    kind value
