-- ===== src/Server/Json.antt =====
-- `serde_json::Value` and the accessors that the translation of requests uses. A number is opaque: its JSON
-- text. An object is its members in their order.
use mini_cpm5_5080fast.Base.{Bool, true, false, Option, none, some, List, [], ◌∷◌, if◌then◌else◌}
use mini_cpm5_5080fast.Bytes.{Bytes}
use mini_cpm5_5080fast.Server.ArgStream.{same_bytes}

mutual
  pub data Json : Type 0 where
    null : Json
    bool : Bool → Json
    number : Bytes → Json
    string : Bytes → Json
    array : Elements → Json
    object : Members → Json

  pub data Elements : Type 0 where
    nil : Elements
    cons : Json → Elements → Elements

  pub data Members : Type 0 where
    end : Members
    member : Bytes → Json → Members → Members

abbrev pub to_list : Elements → List Json
to_list nil = []
to_list (cons v vs) = v ∷ to_list vs

unfoldable pub get_member : Bytes → Members → Option Json
unfolding same_bytes
get_member key end = none
get_member key (member k v ms) =
    let rest = get_member key ms in if same_bytes k key then some v else rest

-- `Value::get`: nothing but an object has members
unfoldable pub get : Json → Bytes → Option Json
unfolding get_member
get (object ms) key = get_member key ms
get null key = none
get (bool b) key = none
get (number n) key = none
get (string s) key = none
get (array vs) key = none

unfoldable pub as_str : Json → Option Bytes
as_str (string s) = some s
as_str null = none
as_str (bool b) = none
as_str (number n) = none
as_str (array vs) = none
as_str (object ms) = none

unfoldable pub is_object : Json → Bool
is_object (object ms) = true
is_object null = false
is_object (bool b) = false
is_object (number n) = false
is_object (string s) = false
is_object (array vs) = false
