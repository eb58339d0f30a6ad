-- ===== src/Diagnostic.antt =====
-- src/diagnostic.rs: diagnostics and their builders.
use treetop_bundle.Base.{ℕ, String, Bool, true, false, Option, none, some, List, [], ◌∷◌, any}

pub data DiagnosticSeverity : Type 0 where
  error_severity warning_severity : DiagnosticSeverity

-- A text built by `format!` is kept as the sequence of its pieces: literal and `{}` text,
-- `{:?}` text before it is quoted, and numbers.
pub data Piece : Type 0 where
  text : String → Piece
  debug : String → Piece
  number : ℕ → Piece

abbrev pub Message : Type 0
Message = List Piece

-- A message without arguments.
abbrev pub say : String → Message
say s = text s ∷ []

pub record Diagnostic : Type 0 where
  pub severity : DiagnosticSeverity
  pub code : String
  pub module_name : Option String
  pub path : Option String
  pub line : Option ℕ
  pub column : Option ℕ
  pub message : Message

-- `Diagnostic::error`
abbrev pub error : String → Message → Diagnostic
error code message = record {
  severity = error_severity;
  code = code;
  module_name = none;
  path = none;
  line = none;
  column = none;
  message = message;
}

-- `Diagnostic::warning`
abbrev pub warning : String → Message → Diagnostic
warning code message = record {
  severity = warning_severity;
  code = code;
  module_name = none;
  path = none;
  line = none;
  column = none;
  message = message;
}

abbrev pub in_module : String → Diagnostic → Diagnostic
in_module name d = record d { module_name = some name }

abbrev pub at_path : String → Diagnostic → Diagnostic
at_path path d = record d { path = some path }

abbrev pub is_error : Diagnostic → Bool
is_error d = elim d.severity [ error_severity ↦ true | warning_severity ↦ false ]

abbrev pub is_warning : Diagnostic → Bool
is_warning d = elim d.severity [ error_severity ↦ false | warning_severity ↦ true ]

-- `diagnostics.iter().any(|d| d.severity == Error)`
abbrev pub has_error : List Diagnostic → Bool
has_error = any is_error

abbrev pub has_warning : List Diagnostic → Bool
has_warning = any is_warning
