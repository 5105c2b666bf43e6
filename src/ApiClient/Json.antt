-- ===== src/ApiClient/Json.antt =====
-- How frontend/src/api/client.ts reads the members of a parsed body. `undefined` is `none`.
use langgraph_agent.Base.{
  ℕ, String, Bool, true, false, Option, none, some, List, [], ◌∷◌, ◌==◌, eqb, not, truthy,
  if◌then◌else◌,
}
use langgraph_agent.Types.{
  Json, null, bool, num, str, arr, obj, JsonItems, none_left, item, JsonMembers, no_more, member,
}

unfoldable pub find_member : String → JsonMembers → Option Json
find_member key no_more = none
find_member key (member name value rest) = if name == key then some value else find_member key rest

-- `json?.[key]`
unfoldable pub member_of : String → Option Json → Option Json
unfolding find_member
member_of key (some (obj members)) = find_member key members
member_of key _ = none

unfoldable pub items : JsonItems → List Json
items none_left = []
items (item first rest) = first ∷ items rest

-- What `Array.isArray` accepts.
unfoldable pub as_array : Option Json → Option (List Json)
unfolding items
as_array (some (arr xs)) = some (items xs)
as_array _ = none

-- What `typeof` calls a string, a number or a Boolean.
unfoldable pub as_text : Option Json → Option String
as_text (some (str s)) = some s
as_text _ = none

unfoldable pub as_number : Option Json → Option ℕ
as_number (some (num n)) = some n
as_number _ = none

unfoldable pub as_bool : Option Json → Option Bool
as_bool (some (bool b)) = some b
as_bool _ = none

-- `!!json`
unfoldable pub is_truthy : Option Json → Bool
is_truthy none = false
is_truthy (some null) = false
is_truthy (some (bool b)) = b
is_truthy (some (num n)) = not (eqb n 0)
is_truthy (some (str s)) = truthy s
is_truthy (some _) = true
