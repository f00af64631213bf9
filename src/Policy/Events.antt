-- ===== src/Policy/Events.antt =====
-- The events that pkg/policy/loader.go takes as `any`: maps, structs behind reflection, and the rest.
use neurosentry.Common.{
  Map, Option, Str, [], get, if◌then◌else◌, int_eq, is_empty, nat_eq, none, some, str, str_eq, ℤ,
}

-- A value of the map: text, a map whose values are text or something else, or something else.
pub data Value : Type 0 where
  text : Str → Value
  object : Map Str (Option Str) → Value
  opaque : Value

abbrev pub Fields : Type 0
Fields = Map Str Value

-- The struct that the field Data holds, with its fields FilePath, Extension, DstAddr and DstPort, where it
-- has them. (Data of another kind than a struct would make reflection panic; agent.Event's is a struct.)
pub record StructData : Type 0 where
  pub file_path : Option Str
  pub extension : Option Str
  pub dst_addr : Option Str
  pub dst_port : Option ℤ

-- A struct, with its fields Type, as `%v` prints it, and Data (`payload`), where it has them.
pub record StructEvent : Type 0 where
  pub type : Option Str
  pub payload : Option StructData

-- A pointer to a struct is the struct that it points to.
pub data Event : Type 0 where
  fields : Fields → Event
  struct : StructEvent → Event
  other : Event

abbrev pub text_of : Option Value → Str
text_of none = []
text_of (some (text s)) = s
text_of (some (object m)) = []
text_of (some opaque) = []

abbrev pub text_in : Option (Option Str) → Str
text_in none = []
text_in (some none) = []
text_in (some (some s)) = s

-- `s, _ := ev[key].(string)`
unfoldable pub text_at : Fields → Str → Str
text_at ev key = text_of (get ev key)

abbrev pub data_text : Str → Option Value → Str
data_text key none = []
data_text key (some (text s)) = []
data_text key (some (object m)) = text_in (get m key)
data_text key (some opaque) = []

-- The text under the key, or else the one under the key of the map `data`.
unfoldable pub text_or_data : Fields → Str → Str
unfolding text_at
text_or_data ev key =
    if is_empty (text_at ev key) then data_text key (get ev (str "data")) else text_at ev key
