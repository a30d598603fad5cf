-- ===== src/Tests/Typing.antt =====
-- Lines that a user types.
use myteams.Prelude.{
  ◌∷◌, some, length, ◌≢◌, ◌≡◌, ◌↔◌, refl, false, none, Text, text, text_discrete, find_first,
}
use myteams.Protocol.Words.{is_space, words, starts_quoted}
use myteams.Protocol.Arguments.{parse_args}
use myteams.Client.Sending.{dispatch_command_line-parse_args}
use myteams.Commands.Handling.{find_command}
use myteams.Client.CommandLine.{
  trim_left, remove_prefix, starts_with_slash, has_unquoted_args, validate_args,
  dispatch_command_line, sent,
}
use myteams.Client.Quotes.{IsQuoted, has_unquoted_args-IsQuoted}
use myteams.Client.Validation.{
  IsValid, IsPassed, validate_args-IsValid, dispatch_command_line-IsPassed,
}

abbrev args_view : Text
args_view = text " \"A\""

has_unquoted_args-IsQuoted_example : (has_unquoted_args args_view ≡ false) ↔ IsQuoted args_view
has_unquoted_args-IsQuoted_example = has_unquoted_args-IsQuoted args_view

login-valid : validate_args (text "/login") args_view ≡ none
unfolding validate_args text text_discrete find_first
login-valid = refl

validate_args-IsValid_example : IsValid (text "/login") args_view
validate_args-IsValid_example = validate_args-IsValid (text "/login") args_view login-valid

login-sent :
    dispatch_command_line (text "  /login \"A\"") ≡ sent (text "/login") (text "/login \"A\"")
unfolding dispatch_command_line text text_discrete find_first
login-sent = refl

dispatch_command_line-IsPassed_example :
    IsPassed (text "  /login \"A\"") (text "/login") (text "/login \"A\"")
dispatch_command_line-IsPassed_example =
    dispatch_command_line-IsPassed (text "  /login \"A\"") (text "/login") (text "/login \"A\"")
      login-sent

-- The client sends a name that starts with a space, and the server's tokeniser has no defined
-- result for it.
spaced-sent :
    dispatch_command_line (text "/login \" A\"") ≡ sent (text "/login") (text "/login \" A\"")
unfolding dispatch_command_line text text_discrete find_first
spaced-sent = refl

spaced-undefined : parse_args (text "/login \" A\"") ≡ none
unfolding parse_args text
spaced-undefined = refl

dispatch_command_line-parse_args_example :
    (text "/login \"A\"" ≡ trim_left (text "  /login \"A\""))
    × (v : IsValid
        (text "/login")
        (remove_prefix (length (text "/login")) (trim_left (text "  /login \"A\""))))
    × (parse_args (text "/login \"A\"") ≡ some (text "/login" ∷ v.tokens))
    × (find_command (text "/login") ≢ none)
unfolding words text starts_quoted trim_left starts_with_slash is_space
dispatch_command_line-parse_args_example =
    dispatch_command_line-parse_args (text "  /login \"A\"") (text "/login") (text "/login \"A\"")
      login-sent refl (refl, (refl, tt))
