-- ===== src/Agent/Config.antt =====
-- src/agent/server.rs, `set_all_config`: the command line for an item, and the values of the protocol
-- as texts. A number is kept as the text that it is printed as.
use pulumi_rs_kube_operator.Base.{
  Bool, true, false, Option, none, some, List, [], ◌∷◌, ◌++◌, map, Result, Text, text,
}
use pulumi_rs_kube_operator.Core.Lock.{Status}
use pulumi_rs_kube_operator.Controllers.Secret.{join_with}
use pulumi_rs_kube_operator.Agent.Command.{Args, flag_arg}
use pulumi_rs_kube_operator.Agent.Server.{Output, run_each}

mutual
  -- `google.protobuf.Value`
  pub data Value : Type 0 where
    no_kind null_value : Value
    number_value string_value : Text → Value
    bool_value : Bool → Value
    struct_value : Fields → Value
    list_value : Values → Value

  pub data Fields : Type 0 where
    no_field : Fields
    add_field : Text → Value → Fields → Fields

  pub data Values : Type 0 where
    no_value : Values
    add_value : Value → Values → Values

abbrev pub bool_text : Bool → Text
bool_text true = text "true"
bool_text false = text "false"

unfoldable mutual
  pub prost_value_to_json_string : Value → Text
  prost_value_to_json_string no_kind = text "null"
  prost_value_to_json_string null_value = text "null"
  prost_value_to_json_string (number_value n) = n
  prost_value_to_json_string (string_value s) = s
  prost_value_to_json_string (bool_value b) = bool_text b
  prost_value_to_json_string (struct_value fs) =
      text "{" ++ join_with (text ",") (field_texts fs) ++ text "}"
  prost_value_to_json_string (list_value vs) =
      text "[" ++ join_with (text ",") (value_texts vs) ++ text "]"

  pub field_texts : Fields → List Text
  field_texts no_field = []
  field_texts (add_field k v fs) =
      (text "\"" ++ k ++ text "\":" ++ prost_value_to_json_string v) ∷ field_texts fs

  pub value_texts : Values → List Text
  value_texts no_value = []
  value_texts (add_value v vs) = prost_value_to_json_string v ∷ value_texts vs

-- What an item sets; a reference is left to the init container.
pub data ItemValue : Type 0 where
  value : Value → ItemValue
  value_from : ItemValue

pub record Item : Type 0 where
  pub key : Text
  pub path : Option Bool
  pub v : Option ItemValue
  pub secret : Option Bool

unfoldable pub value_arg : Option ItemValue → Args
unfolding prost_value_to_json_string
value_arg none = []
value_arg (some value_from) = []
value_arg (some (value no_kind)) = []
value_arg (some (value null_value)) = prost_value_to_json_string null_value ∷ []
value_arg (some (value (number_value n))) = n ∷ []
value_arg (some (value (string_value s))) = s ∷ []
value_arg (some (value (bool_value b))) = bool_text b ∷ []
value_arg (some (value (struct_value fs))) = prost_value_to_json_string (struct_value fs) ∷ []
value_arg (some (value (list_value vs))) = prost_value_to_json_string (list_value vs) ∷ []

unfoldable pub set_config_args : Item → Args
unfolding flag_arg value_arg
set_config_args item =
    (text "config" ∷ text "set" ∷ [])
    ++ flag_arg (text "--secret") item.secret
    ++ flag_arg (text "--path") item.path
    ++ (item.key ∷ [])
    ++ value_arg item.v

-- The items are set one by one, up to the first that fails.
unfoldable pub serve_set_all_config : (run : Args → Output) → List Item → Result Status (Unit {0})
unfolding run_each set_config_args
serve_set_all_config run items = run_each run (map set_config_args items)
