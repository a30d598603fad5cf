-- ===== src/Client/Validation.antt =====
-- What the client lets through.
use myteams.Prelude.{
  ℕ, ◌≤◌, List, [], ◌∷◌, ◌++◌, Bool, true, ◌≡◌, refl, subst, none, some, Text, text, text_eq, empty,
  ltb, length, find_first, arith, Bool-cases, Option-cases, inl, inr, All,
}
use myteams.Protocol.TokenParser.{parse}
use myteams.Teams.Distinct.{All-find_first}
use myteams.Client.Quotes.{IsQuoted, has_unquoted_args-IsQuoted}
use myteams.Client.Schemas.{ArgSchema, CommandSchema, schemas}
use myteams.Client.CommandLine.{
  has_unquoted_args, find_schema, length_error, validate_args, matches, sent, dispatch_command_line,
  is_supported_server_command, extract_command, starts_with_slash, trim_left, remove_prefix,
}

-- As many entries as tokens, and no token longer than its entry allows.
abbrev pub Fits : List Text → List ArgSchema → Type 0
Fits [] args = Unit
Fits (token ∷ tokens) [] = ⊥
Fits (token ∷ tokens) (arg ∷ args) = (length token ≤ arg.max_len) × Fits tokens args

length_error-Fits :
    (tokens : List Text) (args : List ArgSchema)
    → length tokens ≤ length args
    → length_error tokens args ≡ none
    → Fits tokens args
unfolding length_error
length_error-Fits [] args le h = tt
length_error-Fits (token ∷ tokens) [] le h = omega arith
length_error-Fits (token ∷ tokens) (arg ∷ args) le h =
    elim (Bool-cases (ltb arg.max_len (length token))) [
      | inl e ↦ absurd (ground arith)
      | inr e ↦ (ground arith, length_error-Fits tokens args (omega arith) (ground arith))
    ]

-- The table has an entry for each argument that it allows.
schemas_complete : All (λ schema. schema.max_args ≡ length schema.args) schemas
unfolding schemas
schemas_complete = (
  refl,
  (
    refl,
    (
      refl,
      (refl, (refl, (refl, (refl, (refl, (refl, (refl, (refl, (refl, (refl, (refl, tt))))))))))),
    ),
  ),
)

find_first-holds :
    {A : Type 0} (p : A → Bool) (xs : List A) (x : A) → find_first p xs ≡ some x → p x ≡ true
unfolding find_first
find_first-holds p [] x h = cc
find_first-holds p (y ∷ ys) x h = ground (arith, find_first-holds p ys x)

at_most :
    (command : Text) (argc : ℕ) (schema : CommandSchema)
    → matches command argc schema ≡ true
    → schema.max_args ≡ length schema.args
    → argc ≤ length schema.args
unfolding matches
at_most command argc schema h e = ground arith

find_schema-entries :
    (command : Text) (argc : ℕ) (schema : CommandSchema)
    → find_schema command argc ≡ some schema
    → argc ≤ length schema.args
unfolding find_schema
find_schema-entries command argc schema h =
    let entries =
      All-find_first (λ entry. entry.max_args ≡ length entry.args) (matches command argc) schemas
        schema h schemas_complete in
    let matched = find_first-holds (matches command argc) schemas schema h in
    at_most command argc schema matched entries

-- What a validation that finds no error has seen.
pub record IsValid (command args_view : Text) : Type 0 where
  pub all_quoted : IsQuoted args_view
  pub tokens : List Text
  pub parsed : parse args_view ≡ some tokens
  pub schema : CommandSchema
  pub found : find_schema command (length tokens) ≡ some schema
  pub fits : Fits tokens schema.args

-- Where the validation finds no error, the arguments are all quoted and parse, the table has an
-- entry for the command with that many arguments, and each argument is within the limit of its
-- place. No place beyond the entry is read.
pub validate_args-IsValid :
    (command args_view : Text) → validate_args command args_view ≡ none → IsValid command args_view
unfolding validate_args
validate_args-IsValid command args_view h = elim (Bool-cases (has_unquoted_args args_view)) [
  | inl e ↦ absurd (ground arith)
  | inr e ↦ elim (Option-cases (parse args_view)) [
    | inl f ↦ absurd (ground arith)
    | inr (tokens, f) ↦ elim (Option-cases (find_schema command (length tokens))) [
      | inl g ↦ absurd (ground arith)
      | inr (schema, g) ↦ record {
        all_quoted = (has_unquoted_args-IsQuoted args_view).0 e;
        tokens = tokens;
        parsed = f;
        schema = schema;
        found = g;
        fits =
            length_error-Fits tokens schema.args
              (find_schema-entries command (length tokens) schema g) (ground arith);
      }
    ]
  ]
]

-- What is known of a frame that goes to the server.
abbrev pub IsPassed : Text → Text → Text → Type 0
IsPassed line command frame =
    (extract_command (trim_left line) ≡ some command)
    × (is_supported_server_command command ≡ true)
    × (starts_with_slash command ≡ true)
    × (frame ≡ command ++ remove_prefix (length command) (trim_left line))
    × IsValid command (remove_prefix (length command) (trim_left line))

-- A frame goes to the server only if the first token of the line is a command of the table that
-- starts with a slash, and only with valid arguments; the frame is the command and what is left of
-- the line without as many bytes.
pub dispatch_command_line-IsPassed :
    (line command frame : Text)
    → dispatch_command_line line ≡ sent command frame
    → IsPassed line command frame
unfolding dispatch_command_line
dispatch_command_line-IsPassed line command frame h = elim (Bool-cases (empty (trim_left line))) [
  | inl e ↦ absurd (ground arith)
  | inr e ↦ elim (Option-cases (extract_command (trim_left line))) [
    | inl f ↦ absurd (ground arith)
    | inr (first, f) ↦ elim (Bool-cases (text_eq first (text "/help"))) [
      | inl g ↦ absurd (ground arith)
      | inr g ↦ elim (Bool-cases (starts_with_slash first)) [
        | inr k ↦ absurd (ground arith)
        | inl k ↦ elim (Bool-cases (is_supported_server_command first)) [
          | inr l ↦ absurd (ground arith)
          | inl l ↦
              elim (Option-cases
                (validate_args first (remove_prefix (length first) (trim_left line)))) [
                  | inr (err, m) ↦ absurd (ground arith)
                  | inl m ↦
                      subst (λ d. IsPassed line d frame) (ground arith)
                        (f, l, k, ground arith, validate_args-IsValid first _ m)
                ]
        ]
      ]
    ]
  ]
]
