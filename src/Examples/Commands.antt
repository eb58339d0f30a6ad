-- ===== src/Examples/Commands.antt =====
-- Libraries, a console and an engine for the commands.
use treetop_bundle.Signing.Crypto.{Bytes}
use treetop_bundle.Examples.Inputs.{example_engine}
use treetop_bundle.Examples.Bundle.{
  example_codec, example_reader, example_writer, example_printing, example_cedar,
}
use treetop_bundle.Examples.Keys.{example_crypto}
use treetop_bundle.Examples.Disk.{FileList}
use treetop_bundle.Engine.Prepare.{Core}
use treetop_bundle.Signing.Keys.{KeyDecoder}
use treetop_bundle.Engine.{CoreTypes, PolicyEngine}
use treetop_bundle.Cli.Arguments.{json_format, CommonCheckArgs, SignArgs}
use treetop_bundle.Cli.World.{not_present, Console, Libraries}
use treetop_bundle.Json.{string}
use treetop_bundle.Base.{some, true, true, none, [], ◌∷◌}
use treetop_bundle.Error.{ok}

abbrev pub example_decoder : KeyDecoder example_crypto
example_decoder = record {
  from_pem = λ pem. ok ("PRIVATE KEY", []);
  from_der = λ document. ok tt;
  from_encrypted_der = λ document password. ok tt;
}

abbrev pub example_libraries : Libraries
example_libraries = record {
  cedar = example_cedar;
  engine = example_engine;
  printing = example_printing;
  crypto = example_crypto;
  decoder = example_decoder;
  writer = example_writer;
  reader = example_reader;
  codec = example_codec;
  output_to_string = λ output. ok "{}";
  path_to_json = λ path. some (string path);
  writes_line = λ line. true;
  writes_error = λ line. true;
}

abbrev pub example_console : Console
example_console = record { password_variable = not_present; prompt_password = ok [] }

abbrev pub example_archive : Bytes
example_archive = 3 ∷ 4 ∷ []

abbrev pub example_password : Bytes
example_password = 7 ∷ []

abbrev pub example_state : FileList
example_state = ("bundle.tar.gz", example_archive) ∷ ("key.pem", example_password) ∷ []

abbrev pub example_sign_args : SignArgs
example_sign_args = record {
  archive = "bundle.tar.gz";
  signing_key = "key.pem";
  signing_key_password_file = none;
  output = "signed.tar.gz";
}

abbrev pub example_common : CommonCheckArgs
example_common = record { format = json_format; deny_warnings = true }

abbrev pub example_core_types : CoreTypes
example_core_types = record {
  LabelRegistry = Unit;
  PolicyVersion = Unit;
  PolicyStoreId = Unit;
  PolicyCandidates = Unit;
  Decision = Unit;
  PolicyError = Unit;
  Request = Unit;
  RequestContext = Unit;
}

abbrev pub example_policy_engine : PolicyEngine example_core_types
example_policy_engine = record {
  Engine = Unit;
  Session = Unit;
  with_label_registry = λ e r. tt;
  session = λ e. tt;
  current_version = λ e. tt;
  policy_store_ids = λ e. none;
  list_policies_for_user = λ e user groups namespace. ok tt;
  evaluate = λ e request. ok tt;
  evaluate_with_context = λ e request context. ok tt;
  version = λ s. tt;
  evaluate_session = λ s request. ok tt;
  evaluate_session_with_context = λ s request context. ok tt;
}

abbrev pub example_core :
    Core example_cedar example_engine example_core_types example_policy_engine example_policy_engine
example_core = record {
  StoreConfig = Unit;
  Layout = Unit;
  new_store = λ name namespace. ok tt;
  new_layout = λ stores. ok tt;
  with_global_policy_ids = λ layout ids. ok tt;
  new_from_str = λ policies. ok tt;
  new_from_str_with_policy_stores = λ policies layout. ok tt;
  new_from_str_with_schema = λ policies schema. ok tt;
  new_from_str_with_schema_and_policy_stores = λ policies schema layout. ok tt;
  build_registry = λ version labelers. ok tt;
}
