-- ===== src/Agent/WhoAmI.antt =====
-- src/agent/server.rs, `who_am_i`: what is read of the answer of `pulumi whoami`. The parser of JSON is
-- the library's.
use pulumi_rs_kube_operator.Base.{
  none, some, or_else, List, [], ◌∷◌, ◌++◌, Result, ok, err, Text, text,
}
use pulumi_rs_kube_operator.Core.Lock.{Status}
use pulumi_rs_kube_operator.Api.Json.{
  JsonValue, json_null, json_bool, json_number, json_string, json_array, json_object, Elements,
  no_element, add_element, index_json, as_str,
}
use pulumi_rs_kube_operator.Agent.Command.{Args}
use pulumi_rs_kube_operator.Agent.Server.{Output, internal, run_pulumi}

-- The elements that are strings.
unfoldable pub strings : Elements → List Text
unfolding as_str
strings no_element = []
strings (add_element v rest) = elim (as_str v) [ some s ↦ s ∷ strings rest | none ↦ strings rest ]

unfoldable pub string_array : JsonValue → List Text
unfolding strings
string_array (json_array elements) = strings elements
string_array json_null = []
string_array (json_bool b) = []
string_array (json_number n) = []
string_array (json_string s) = []
string_array (json_object members) = []

pub record WhoAmIResult : Type 0 where
  pub user : Text
  pub organizations : List Text
  pub url : Text

unfoldable pub whoami_of : JsonValue → WhoAmIResult
unfolding index_json as_str string_array
whoami_of parsed = record {
  user = or_else (as_str (index_json (text "user") parsed)) [];
  organizations = string_array (index_json (text "organizations") parsed);
  url = or_else (as_str (index_json (text "url") parsed)) [];
}

unfoldable pub who_am_i :
    (run : Args → Output) (from_str : Text → Result Text JsonValue) → Result Status WhoAmIResult
unfolding run_pulumi whoami_of
who_am_i run from_str = elim (run_pulumi (run (text "whoami" ∷ text "--json" ∷ []))) [
  | err e ↦ err e
  | ok output ↦ elim (from_str output) [
    | err m ↦ err (internal (text "failed to parse whoami: " ++ m))
    | ok parsed ↦ ok (whoami_of parsed)
  ]
]
