-- ===== src/Client/CommandLine.antt =====
-- client/protocol/CommandLineDispatcher.cpp, and `dispatchCommandLine` of
-- client/ClientApplication.cpp.
use myteams.Prelude.{
  ℕ, zero, suc, List, [], ◌∷◌, ◌++◌, Bool, true, false, not, ◌&&◌, Option, none, some, Text, text,
  text_eq, empty, ◌==◌, ltb, length, find_first, if◌then◌else◌,
}
use myteams.Protocol.{to_string}
use myteams.Protocol.Words.{is_space}
use myteams.Protocol.TokenParser.{parse}
use myteams.Client.Schemas.{ArgSchema, CommandSchema, schemas}

-- The flag tells whether the scan is behind an opening quote.
unfoldable pub has_unquoted : Bool → Text → Bool
has_unquoted false [] = false
has_unquoted false (c ∷ s) =
    let skipped = has_unquoted false s in
    let quoted = has_unquoted true s in
    if is_space c then skipped else if not (c == b'"') then true else quoted
has_unquoted true [] = true
has_unquoted true (c ∷ s) =
    let closed = has_unquoted false s in
    let inside = has_unquoted true s in if c == b'"' then closed else inside

unfoldable pub has_unquoted_args : Text → Bool
unfolding has_unquoted is_space
has_unquoted_args = has_unquoted false

unfoldable pub matches : Text → ℕ → CommandSchema → Bool
matches command argc schema =
    text_eq schema.name command && not (ltb argc schema.min_args) && not (ltb schema.max_args argc)

unfoldable pub find_schema : Text → ℕ → Option CommandSchema
unfolding matches schemas
find_schema command argc = find_first (matches command argc) schemas

unfoldable pub trim_left : Text → Text
trim_left [] = []
trim_left (c ∷ s) = let rest = trim_left s in if is_space c then rest else c ∷ s

unfoldable pub extract_command : Text → Option Text
unfolding parse
extract_command line = elim (parse line) [
  | none ↦ none
  | some tokens ↦ elim tokens [ [] ↦ none | command ∷ _ ↦ some command ]
]

unfoldable pub any_named : Text → List CommandSchema → Bool
any_named command [] = false
any_named command (schema ∷ rest) =
    let later = any_named command rest in if text_eq schema.name command then true else later

unfoldable pub is_supported_server_command : Text → Bool
unfolding any_named schemas
is_supported_server_command command = any_named command schemas

-- The loop over the tokens and the entries at their places.
unfoldable pub length_error : List Text → List ArgSchema → Option Text
unfolding to_string
length_error [] args = none
length_error (token ∷ tokens) [] = none
length_error (token ∷ tokens) (arg ∷ args) =
    let later = length_error tokens args in
    if ltb arg.max_len (length token)
    then some (arg.name ++ text " exceeds max length of " ++ to_string arg.max_len)
    else later

-- An error message, or `none` where the arguments are valid.
unfoldable pub validate_args : Text → Text → Option Text
unfolding has_unquoted_args parse find_schema length_error
validate_args command args_view =
    if has_unquoted_args args_view
    then some (text "Invalid command format: arguments must be quoted")
    else elim (parse args_view) [
      | none ↦ some (text "Invalid command format")
      | some tokens ↦ elim (find_schema command (length tokens)) [
        | none ↦ some (text "Wrong number of arguments for " ++ command)
        | some schema ↦ length_error tokens schema.args
      ]
    ]

-- `remove_prefix`
unfoldable pub remove_prefix : ℕ → Text → Text
remove_prefix zero s = s
remove_prefix (suc n) [] = []
remove_prefix (suc n) (c ∷ s) = remove_prefix n s

-- What a line leads to: nothing, a text on the output, the help, or a frame for the server with
-- the command that the router then waits for.
pub data Dispatch : Type 0 where
  ignored : Dispatch
  help : Dispatch
  printed : Text → Dispatch
  sent : Text → Text → Dispatch

-- `command.front() == '/'`
unfoldable pub starts_with_slash : Text → Bool
starts_with_slash [] = false
starts_with_slash (c ∷ s) = c == b'/'

unfoldable pub dispatch_command_line : Text → Dispatch
unfolding trim_left extract_command is_supported_server_command validate_args remove_prefix
    starts_with_slash
dispatch_command_line line =
    let trimmed = trim_left line in
    if empty trimmed then ignored else elim (extract_command trimmed) [
      | none ↦ printed (text "Invalid command format\n")
      | some command ↦
          if text_eq command (text "/help")
          then help
          else if not (starts_with_slash command)
          then printed (text "Invalid command format\n")
          else if not (is_supported_server_command command)
          then printed (text "Unknown command: " ++ command ++ text "\n")
          else let args_view = remove_prefix (length command) trimmed in
            elim (validate_args command args_view) [
              | some err ↦ printed (err ++ text "\n")
              | none ↦ sent command (command ++ args_view)
            ]
    ]
