-- ===== src/Cli/Arguments.antt =====
-- The arguments of the commands, as clap has parsed them.
use treetop_bundle.Archive.Validate.{required, allow_unsigned, SignaturePolicy}
use treetop_bundle.Base.{String, Bool, Option, List}

pub data OutputFormat : Type 0 where
  human_format json_format : OutputFormat

pub data SignaturePolicyArg : Type 0 where
  allow_unsigned_arg required_arg : SignaturePolicyArg

-- `From<SignaturePolicyArg> for SignaturePolicy`
unfoldable pub signature_policy_of : SignaturePolicyArg → SignaturePolicy
signature_policy_of allow_unsigned_arg = allow_unsigned
signature_policy_of required_arg = required

pub record CommonCheckArgs : Type 0 where
  pub format : OutputFormat
  pub deny_warnings : Bool

pub record CheckPolicyArgs : Type 0 where
  pub file : String
  pub schema : Option String
  pub labels : Option String
  pub common : CommonCheckArgs

pub record CheckModuleArgs : Type 0 where
  pub manifest : String
  pub common : CommonCheckArgs

pub record CheckBundleArgs : Type 0 where
  pub manifest : String
  pub common : CommonCheckArgs

pub record CheckArchiveArgs : Type 0 where
  pub archive : String
  pub trusted_keys : List String
  pub signature_policy : SignaturePolicyArg
  pub common : CommonCheckArgs

pub data CheckTarget : Type 0 where
  check_policy_target : CheckPolicyArgs → CheckTarget
  check_module_target : CheckModuleArgs → CheckTarget
  check_bundle_target : CheckBundleArgs → CheckTarget
  check_archive_target : CheckArchiveArgs → CheckTarget

pub record BuildArgs : Type 0 where
  pub manifest : String
  pub output : String
  pub signing_key : Option String
  pub signing_key_password_file : Option String
  pub format : OutputFormat
  pub deny_warnings : Bool

pub record SignArgs : Type 0 where
  pub archive : String
  pub signing_key : String
  pub signing_key_password_file : Option String
  pub output : String

pub data Command : Type 0 where
  check : CheckTarget → Command
  build : BuildArgs → Command
  sign : SignArgs → Command
