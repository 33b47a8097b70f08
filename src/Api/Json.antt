-- ===== src/Api/Json.antt =====
-- Values of JSON, as `serde_json` has them, in the resources and in the answers of programs.
use pulumi_rs_kube_operator.Base.{Bool, Option, none, some, Text, text_eq, if◌then◌else◌}

mutual
  -- `serde_json::Value`; a number is kept as its text.
  pub data JsonValue : Type 0 where
    json_null : JsonValue
    json_bool : Bool → JsonValue
    json_number json_string : Text → JsonValue
    json_array : Elements → JsonValue
    json_object : Members → JsonValue

  pub data Elements : Type 0 where
    no_element : Elements
    add_element : JsonValue → Elements → Elements

  pub data Members : Type 0 where
    no_member : Members
    add_member : Text → JsonValue → Members → Members

unfoldable pub member : Text → Members → JsonValue
member key no_member = json_null
member key (add_member k v rest) = if text_eq k key then v else member key rest

-- `value[key]`: null if there is no such member, or no object.
unfoldable pub index_json : Text → JsonValue → JsonValue
unfolding member
index_json key (json_object members) = member key members
index_json key json_null = json_null
index_json key (json_bool b) = json_null
index_json key (json_number n) = json_null
index_json key (json_string s) = json_null
index_json key (json_array elements) = json_null

unfoldable pub as_str : JsonValue → Option Text
as_str (json_string s) = some s
as_str json_null = none
as_str (json_bool b) = none
as_str (json_number n) = none
as_str (json_array elements) = none
as_str (json_object members) = none
