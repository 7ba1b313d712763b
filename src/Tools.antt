-- ===== src/Tools.antt =====
-- src/mewcode/tools/base.py: the registry of tools, the check of a call's arguments and the result of
-- a call. The texts of the errors are the constructors of `ErrorText`.
pub mod Registry
use mew_code.Prelude.{
  ℕ, Bool, true, false, not, ◌&&◌, Option, none, some, List, [], ◌∷◌, any, keep, contains, ◌==◌,
  option_eq, Outcome, ok, err, ◌>>=◌, ◌>>◌, raise_if, if◌then◌else◌,
}
use mew_code.Prelude.Dict.{Dict, lookup, insert, has, values}
use mew_code.Prelude.Text.{Text, text_eq, codes, is_empty}
use mew_code.Permissions.Models.{PermissionSource}

-- A JSON value by its type, with its text; a null or a number with a fraction is `other`.
pub data JsonValue : Type 0 where
  string integer object array other : Text → JsonValue
  boolean : Bool → JsonValue

pub data ErrorText : Type 0 where
  unknown_tool missing_argument : Text → ErrorText
  wrong_type : Text → Text → ErrorText
  not_an_object cancelled_call unexpected_error : ErrorText
  permission_denied : PermissionSource → ErrorText
  hook_denied reported : Text → ErrorText

pub data MetadataValue : Type 0 where
  text : Text → MetadataValue
  flag : Bool → MetadataValue
  source : PermissionSource → MetadataValue

pub record ToolResult : Type 0 where
  pub is_ok : Bool
  pub tool_name : Text
  pub content : Text
  pub error : Option ErrorText
  pub metadata : Dict Text MetadataValue

-- `arguments` is none where the call's arguments are no JSON object.
pub record ToolCallRequest : Type 0 where
  pub id : Text
  pub name : Text
  pub arguments : Option (Dict Text JsonValue)
  pub raw_arguments : Text

pub data ToolSafety : Type 0 where
  read_only side_effect : ToolSafety

pub record ToolExecution : Type 0 where
  pub index : ℕ
  pub request : ToolCallRequest
  pub result : ToolResult

-- The schema's required names, and the type that it names for a property, if any.
pub record ToolParameterSchema : Type 0 where
  pub required : List Text
  pub properties : Dict Text (Option Text)

-- `is_control` is whether the tool is an AgentControlTool.
pub record Tool : Type 0 where
  pub name : Text
  pub parameters_schema : ToolParameterSchema
  pub safety : ToolSafety
  pub is_control : Bool

pub record ValidatedToolCall : Type 0 where
  pub request : ToolCallRequest
  pub tool : Tool

abbrev is_string : JsonValue → Bool
is_string (JsonValue.string s) = true
is_string _ = false

abbrev is_integer : JsonValue → Bool
is_integer (JsonValue.integer s) = true
is_integer _ = false

abbrev is_boolean : JsonValue → Bool
is_boolean (JsonValue.boolean b) = true
is_boolean _ = false

abbrev is_object : JsonValue → Bool
is_object (JsonValue.object s) = true
is_object _ = false

abbrev is_array : JsonValue → Bool
is_array (JsonValue.array s) = true
is_array _ = false

unfoldable pub matches_json_type : JsonValue → Text → Bool
matches_json_type value expected =
    if expected == codes "string"
    then is_string value
    else if expected == codes "integer"
    then is_integer value
    else if expected == codes "boolean"
    then is_boolean value
    else if expected == codes "object"
    then is_object value
    else if expected == codes "array"
    then is_array value
    else true

-- The loop over the required names.
unfoldable pub missing_argument_of : List Text → Dict Text JsonValue → Option ErrorText
missing_argument_of [] arguments = none
missing_argument_of (name ∷ names) arguments =
    let later = missing_argument_of names arguments in
    if has name arguments then later else some (ErrorText.missing_argument name)

abbrev expected_type : Option (Option Text) → Text
expected_type (some (some t)) = t
expected_type _ = []

-- The loop over the arguments: an unknown one, and one without a type, is passed over.
unfoldable pub wrong_type_of : Dict Text (Option Text) → Dict Text JsonValue → Option ErrorText
wrong_type_of properties [] = none
wrong_type_of properties ((name, value) ∷ arguments) =
    let later = wrong_type_of properties arguments in
    let expected = expected_type (lookup name properties) in
    if not (is_empty expected) && not (matches_json_type value expected)
    then some (ErrorText.wrong_type name expected)
    else later

unfoldable pub validate_arguments :
    ToolParameterSchema → Option (Dict Text JsonValue) → Option ErrorText
validate_arguments schema none = some ErrorText.not_an_object
validate_arguments schema (some arguments) = elim (missing_argument_of schema.required arguments) [
  | some e ↦ some e
  | none ↦ wrong_type_of schema.properties arguments
]

abbrev pub ToolRegistry : Type 0
ToolRegistry = Dict Text Tool

-- The ValueError of a name that is there already
pub data DuplicateTool : Type 0 where
  duplicate : Text → DuplicateTool

unfoldable pub add_tools : ToolRegistry → List Tool → Outcome DuplicateTool ToolRegistry
add_tools registry [] = ok registry
add_tools registry (tool ∷ tools) = do
  raise_if (has tool.name registry) (DuplicateTool.duplicate tool.name)
  add_tools (insert tool.name tool registry) tools

-- ToolRegistry(tools)
unfoldable pub make_registry : List Tool → Outcome DuplicateTool ToolRegistry
make_registry tools = add_tools [] tools

unfoldable pub select_names : List Text → ToolRegistry → Outcome DuplicateTool ToolRegistry
select_names names registry =
    make_registry (keep (λ tool. contains names tool.name) (values registry))

unfoldable pub without_names : List Text → ToolRegistry → Outcome DuplicateTool ToolRegistry
without_names names registry =
    make_registry (keep (λ tool. not (contains names tool.name)) (values registry))

-- What a call that is refused before it runs gives.
abbrev pub failed_result : Text → ErrorText → Dict Text MetadataValue → ToolResult
failed_result name error metadata = record {
  is_ok = false;
  tool_name = name;
  content = [];
  error = some error;
  metadata = metadata;
}

-- ToolRegistry.validate_call; the error is the result of the refused call
unfoldable pub validate_call : ToolRegistry → ToolCallRequest → Outcome ToolResult ValidatedToolCall
validate_call registry request = elim (lookup request.name registry) [
  | none ↦ err (
      failed_result request.name (ErrorText.unknown_tool request.name)
        ((codes "tool_call_id", MetadataValue.text request.id) ∷ []))
  | some tool ↦ elim (validate_arguments tool.parameters_schema request.arguments) [
    | some e ↦ err (
        failed_result tool.name e (
          (codes "tool_call_id", MetadataValue.text request.id)
          ∷ (codes "raw_arguments", MetadataValue.text request.raw_arguments)
          ∷ []))
    | none ↦ ok (record { request = request; tool = tool })
  ]
]

-- What `tool.execute` does: it returns, raises, or is cancelled.
pub data Ran : Type 0 where
  returned : ToolResult → Ran
  raised_error stopped : Ran

-- execute_validated; none is the CancelledError, which is no Exception
unfoldable pub execute_validated : ValidatedToolCall → Ran → Option ToolResult
execute_validated call (Ran.returned result) = some result
execute_validated call Ran.raised_error = some (
    failed_result call.tool.name ErrorText.unexpected_error
      ((codes "tool_call_id", MetadataValue.text call.request.id) ∷ []))
execute_validated call Ran.stopped = none
