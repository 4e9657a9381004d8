-- ===== src/Nostr.antt =====
-- Nostr events as routstr/nip91.py and routstr/discovery.py read them. The tags are lists of texts;
-- a field that an event may lack is optional.
pub mod Announce
pub mod Backoff
pub mod Directory
pub mod Discovery
pub mod Round
pub mod Existing
pub mod Setup
use routstr_core.Prelude.{
  ℕ, Bool, Option, none, some, List, [], ◌∷◌, String, str_eq, head?, if◌then◌else◌, ℤ,
}

pub record Event : Type 0 where
  pub id : Option String
  pub pubkey : Option String
  pub created_at : Option ℤ
  pub kind : Option ℕ
  pub tags : List (List String)
  pub content : String

-- The value of a tag with this name; a tag with fewer than two entries has none.
abbrev pub tag_value : String → List String → Option String
tag_value key [] = none
tag_value key (name ∷ []) = none
tag_value key (name ∷ value ∷ rest) = if str_eq name key then some value else none

abbrev prepend : Option String → List String → List String
prepend none vs = vs
prepend (some v) vs = v ∷ vs

unfoldable pub tag_values : String → List (List String) → List String
tag_values key [] = []
tag_values key (tag ∷ tags) = prepend (tag_value key tag) (tag_values key tags)

unfoldable pub get_tag_values : Event → String → List String
unfolding tag_values
get_tag_values event key = tag_values key event.tags

unfoldable pub get_single_tag_value : Event → String → Option String
unfolding get_tag_values
get_single_tag_value event key = head? (get_tag_values event key)

-- What `json.loads` makes of a text: an exception, a value that is no object, or an object.
pub data Loaded (Object : Type 0) : Type 0 where
  no_json : Loaded Object
  no_object : Loaded Object
  object : Object → Loaded Object

-- The `json` of Python, and its objects. `equal` is `==` of dicts, `text_field` is `get` of a field
-- that holds a text.
pub record Json : Type 1 where
  pub Object : Type 0
  pub empty : Object
  -- whether an object has an item
  pub truthy : Object → Bool
  pub loads : String → Loaded Object
  pub dumps : Object → String
  pub text_field : String → Object → Option String
  pub equal : Object → Object → Bool
