-- ===== src/Examples/CommandWitnesses.antt =====
-- The theorems on keys, files, engines and commands at concrete inputs.
use treetop_bundle.Engine.Mode.{prepare_engine-mode, is_given}
use treetop_bundle.Cli.Written.{run_sign-IsSigned, IsSigned}
use treetop_bundle.FilePath.{escapes, components, is_absolute}
use treetop_bundle.Labels.Parse.{from_raw}
use treetop_bundle.Validation.ArchiveParts.{same_set}
use treetop_bundle.Namespace.{any_overlap}
use treetop_bundle.Cli.Inputs.{signed_archive}
use treetop_bundle.Cli.Exit.{main-exits}
use treetop_bundle.Cli.Keeps.{main-Keeps}
use treetop_bundle.Cli.Rendered.{render_check_iff, CanPrint, IsClean}
use treetop_bundle.Cli.Arguments.{json_format, sign}
use treetop_bundle.Cli.Password.{length-configured_signing_key_password, trim_line_ending_lem}
use treetop_bundle.Cli.World.{println, changes, returned, reads}
use treetop_bundle.Examples.Inputs.{example_engine, example_host}
use treetop_bundle.Engine.{schema_free, is_enforcing}
use treetop_bundle.Examples.Commands.{
  example_core, example_password, example_archive, example_sign_args, example_policy_engine,
  example_state, example_console, example_common, example_core_types, example_decoder,
  example_libraries,
}
use treetop_bundle.Examples.Keys.{example_crypto}
use treetop_bundle.Signing.Loaded.{
  read_private_key_iff, IsPrivateFile, from_pkcs8_pem_with_password-Agrees, Agrees,
}
use treetop_bundle.Engine.Prepare.{prepare_engine}
use treetop_bundle.Cli.Render.{render_check}
use treetop_bundle.Examples.Disk.{example_filing, example_disk, example_files, content_of}
use treetop_bundle.Cli.Run.{load_key, refuse_overwrite, run_sign, main}
use treetop_bundle.Cli.Keys.{
  max_signing_key_password_bytes, ends_with, trim_line_ending, configured_signing_key_password,
}
use treetop_bundle.Archive.Read.{length-read_archive, read_archive}
use treetop_bundle.Signing.Keys.{read_private_key}
use treetop_bundle.Base.{
  sort_by, is_blank, ◌⊎◌, length, ◌≡◌, ◌↔◌, ◌≤◌, refl, inl, some, none, true, [], ◌∷◌,
}
use treetop_bundle.Cli.World.{◌>>=◌}
use treetop_bundle.Examples.Bundle.{example_writer, example_cedar, example_parts}
use treetop_bundle.Error.{ok}

read_private_key_iff_example :
    (read_private_key example_host (example_files example_state) "key.pem" ≡ ok "")
    ↔ IsPrivateFile example_host (example_files example_state) "key.pem" ""
read_private_key_iff_example =
    read_private_key_iff example_host (example_files example_state) "key.pem" ""

from_pkcs8_pem_with_password-Agrees_example : Agrees example_crypto example_decoder (1 ∷ []) "pem"
from_pkcs8_pem_with_password-Agrees_example =
    from_pkcs8_pem_with_password-Agrees example_crypto example_decoder "pem" (1 ∷ [])

length-read_archive_example : length example_archive ≤ 10
unfolding read_archive
length-read_archive_example =
    length-read_archive (example_files example_state) "bundle.tar.gz" 10 example_archive refl

prepare_engine-mode_example :
    is_enforcing example_core_types example_policy_engine example_policy_engine (schema_free tt)
    ≡ is_given example_parts.schema_json
unfolding prepare_engine
prepare_engine-mode_example =
    prepare_engine-mode example_host example_cedar example_engine example_crypto example_writer
      example_core_types example_policy_engine example_policy_engine example_core example_parts
      (schema_free tt) (inl refl)

trim_line_ending_lem_example :
    (trim_line_ending (97 ∷ 13 ∷ 10 ∷ []) ≡ 97 ∷ [])
    × ((ends_with 13 (97 ∷ []) ≡ true) ⊎ (trim_line_ending (97 ∷ 10 ∷ []) ≡ 97 ∷ []))
    × ((ends_with 10 (97 ∷ []) ≡ true) ⊎ (trim_line_ending (97 ∷ []) ≡ 97 ∷ []))
trim_line_ending_lem_example = trim_line_ending_lem (97 ∷ [])

length-configured_signing_key_password_example :
    length example_password ≤ max_signing_key_password_bytes
unfolding configured_signing_key_password
length-configured_signing_key_password_example =
    length-configured_signing_key_password example_console (example_files example_state) "key.pem"
      example_password refl

render_check_iff_example :
    ((render_check example_libraries example_common [] none none example_state).0 ≡ ok tt)
    ↔ (IsClean true [] × CanPrint example_libraries json_format [] none none)
render_check_iff_example =
    render_check_iff example_libraries example_common [] none none example_state

main-exits_example :
    (main example_libraries example_disk example_console (sign example_sign_args) example_state).0
    ≤ 2
main-exits_example =
    main-exits example_libraries example_disk example_console (λ line. refl)
      (sign example_sign_args) example_state (λ line. refl) tt

main-Keeps_example :
    content_of
      (main example_libraries example_disk example_console
        (sign example_sign_args)
        example_state).1.1.1
      "key.pem"
    ≡ some example_password
main-Keeps_example =
    main-Keeps example_disk example_filing example_libraries example_console
      (sign example_sign_args) example_state "key.pem" example_password refl

run_sign-IsSigned_example :
    IsSigned example_disk example_filing example_libraries example_console example_sign_args
      example_state
      (run_sign example_libraries example_disk example_console example_sign_args example_state).1.1
unfolding run_sign ◌>>=◌ reads returned changes println refuse_overwrite load_key signed_archive
    is_blank any_overlap sort_by same_set from_raw is_absolute components escapes
run_sign-IsSigned_example =
    run_sign-IsSigned example_disk example_filing example_libraries example_console
      example_sign_args example_state refl
