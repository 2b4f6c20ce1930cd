-- ===== src/ApiResource/Prompts.antt =====
-- resource/biz/base_api.go: the default prompts of a tool, each once.
pub mod Unique
use kratos_core.Prelude.{
  String, ◌≡◌, ◌≢◌, refl, sym, Bool, true, false, not, ◌&&◌, ◌||◌, Option, none, some, List, [],
  ◌∷◌, ◌++◌, In, In-append_left, In-append_right, In-append, arith, Bool-cases, inl, inr, ◌⊎◌,
  if◌then◌else◌,
}
use Prim.Native.String.{◌++◌ as str_append}
use kratos_core.Prelude.Eq.{◌==◌, ==_iff, string_eq, contains, contains-In, In-contains}
use kratos_core.Prelude.Text.{split, trim_space}
use kratos_core.ApiResource.Names.{is_proto_package_version}

abbrev named_terminal : String → Option String
named_terminal part =
    if part == "admin"
    then some "管理后台"
    else if part == "app"
    then some "商城移动端"
    else if part == "base"
    then some "公共基础"
    else none

abbrev or_later : Option String → String → String
or_later none later = later
or_later (some prompt) later = prompt

-- The loop over the parts, with the part before.
abbrev prompt_of : String → List String → String
prompt_of previous [] = ""
prompt_of previous (part ∷ []) = ""
prompt_of previous (part ∷ next ∷ rest) =
    let later = prompt_of part (next ∷ rest) in
    if is_proto_package_version part then or_later (named_terminal previous) later else later

abbrev first_prompt : List String → String
first_prompt [] = ""
first_prompt (part ∷ rest) = prompt_of part rest

-- `terminalToolPrompt`
unfoldable pub terminal_tool_prompt : String → String
unfolding is_proto_package_version
terminal_tool_prompt service_name = first_prompt (split b'.' service_name)

-- `uniqueToolPrompts`, from the prompts so far, which are also those seen.
unfoldable pub unique_from : List String → List String → List String
unique_from values [] = values
unique_from values (item ∷ rest) =
    unique_from (if item == "" || contains values item then values else values ++ item ∷ []) rest

unfoldable pub unique_tool_prompts : List String → List String
unfolding unique_from
unique_tool_prompts prompts = unique_from [] prompts

abbrev when : Bool → String → List String
when true s = s ∷ []
when false s = []

abbrev has : String → Bool
has s = not (s == "")

-- `defaultToolPrompts`
unfoldable pub default_tool_prompts :
    String → String → String → String → String → String → String → List String
unfolding unique_tool_prompts terminal_tool_prompt
default_tool_prompts tool_name service_name service_desc desc operation method path =
    let terminal = terminal_tool_prompt service_name in
    unique_tool_prompts (
      when (has service_desc && has desc) (str_append service_desc (str_append "：" desc))
      ++ (when (has desc) desc
          ++ (when (has service_desc && not (has desc)) service_desc
              ++ (when (has terminal && has desc) (str_append terminal (str_append "：" desc))
                  ++ (when (has tool_name) (str_append "工具名：" tool_name)
                      ++ (when (has operation) (str_append "RPC：" operation)
                          ++ when (has method || has path) (
                              trim_space (
                                str_append "HTTP：" (str_append method (str_append " " path))))))))))
