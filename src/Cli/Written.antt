-- ===== src/Cli/Written.antt =====
-- What a command that succeeds has written.
use treetop_bundle.Archive.Signed.{IsResigned, resign-IsResigned}
use treetop_bundle.Archive.Read.{read_archive}
use treetop_bundle.Cli.Unchanged.{println-Unchanged}
use treetop_bundle.Archive.Limits.{default_limits}
use treetop_bundle.Cli.Inputs.{signed_archive}
use treetop_bundle.Signing.Crypto.{Bytes}
use treetop_bundle.Cli.Arguments.{SignArgs}
use treetop_bundle.Cli.Run.{
  write_output, create_output, load_key, refuse_overwrite, write_new_file, run_sign,
}
use treetop_bundle.Diagnostic.{text, Message}
use treetop_bundle.Cli.Keeps.{Filing}
use treetop_bundle.Base.{[], ◌∷◌, List, ◌≡◌, refl, sym, ap, subst, ◌∙◌, String, Option, none, some}
use treetop_bundle.Error.{>>=-eq-ok, BundleError, Result, ok, err, map_err-eq-ok}
use treetop_bundle.Cli.World.{
  changes, continue, Console, Libraries, stop_at, Disk, Stop, Action, ◌>>=◌, reads, returned,
}

stop_at-eq-ok : {A : Type 0} (r : Result BundleError A) {a : A} → stop_at r ≡ ok a → r ≡ ok a
stop_at-eq-ok (ok b) h = cc
stop_at-eq-ok (err e) h = cc

module _ {S : Type 0} where
  -- A sequence that succeeds: its first action has, and the second from the state that it left.
  abbrev Succeeds : {A B : Type 0} → Action S A → (A → Action S B) → S → B → Type 0
  Succeeds {A} m f s b =
      (a : A) × ((m s).0 ≡ ok a)
      × ((f a (m s).1.1).0 ≡ ok b)
      × (((m >>= f) s).1.1 ≡ (f a (m s).1.1).1.1)

  continue-ok :
      {A B : Type 0} (f : A → Action S B) (p : Result Stop A × (List Message × S)) (b : B)
      → (continue f p).0 ≡ ok b
      → (a : A) × (p.0 ≡ ok a) × ((f a p.1.1).0 ≡ ok b) × ((continue f p).1.1 ≡ (f a p.1.1).1.1)
  continue-ok f (ok a, (lines, s)) b h = (a, refl, h, refl)
  continue-ok f (err e, (lines, s)) b h = absurd cc

  >>=-ok :
      {A B : Type 0} (m : Action S A) (f : A → Action S B) (s : S) (b : B)
      → ((m >>= f) s).0 ≡ ok b
      → Succeeds m f s b
  unfolding ◌>>=◌
  >>=-ok m f s b h = continue-ok f (m s) b h

  returned-ok :
      {A : Type 0} (o : Option A) (s : S) (a : A)
      → (returned o s).0 ≡ ok a
      → (o ≡ some a) × ((returned o s).1.1 ≡ s)
  unfolding returned
  returned-ok (some b) s a h = (cc, refl)
  returned-ok none s a h = absurd cc

module _ {S : Type 0} (D : Disk S) (filing : Filing D) (L : Libraries) (console : Console) where
  -- The path is new, and afterwards it has the content.
  abbrev pub Wrote : String → Bytes → S → S → Type 0
  Wrote path contents before after =
      (filing.content before path ≡ none) × (filing.content after path ≡ some contents)

  write_new_file-ok :
      (path : String) (contents : Bytes) (s : S)
      → (write_new_file L D console path contents s).0 ≡ ok tt
      → Wrote path contents s (write_new_file L D console path contents s).1.1
  unfolding write_new_file create_output write_output changes
  write_new_file-ok path contents s h =
      let (done, created, wrote, e) =
        >>=-ok (changes (create_output L D console path))
          (λ done. changes (write_output L D console path contents)) s tt h in
      let c = map_err-eq-ok _ _ (stop_at-eq-ok _ created) in
      let w = map_err-eq-ok _ _ (stop_at-eq-ok _ wrote) in
      (
        filing.create_fresh path s c,
        subst (λ x. filing.content x path ≡ some contents) (sym e)
            (filing.write_holds path contents s c w),
      )

  -- What `run_sign` did: it loaded the key, read, validated and signed the archive, and wrote the
  -- signed archive to a new file.
  pub record IsSigned (args : SignArgs) (before after : S) : Type 0 where
    pub secret : L.crypto.SecretKey
    pub loaded :
        load_key L D console args.signing_key args.signing_key_password_file before ≡ ok secret
    pub source : Bytes
    pub read :
        read_archive (D.files before) args.archive default_limits.max_compressed_bytes ≡ ok source
    pub bytes : Bytes
    pub signed :
        IsResigned
          (D.host before)
          L.cedar
          L.engine
          L.printing
          L.crypto
          L.writer
          L.reader
          L.codec
          source
          secret
          default_limits
          bytes
    pub wrote : Wrote args.output bytes before after

  -- When `run_sign` succeeds, the key was loaded, and the output, which was not there before, holds
  -- the bytes of a signed archive: the archive was read and decoded within the limits, its manifest,
  -- artifacts and content were validated, and all that the new archive has besides is the signature
  -- that the key makes of the manifest.
  pub run_sign-IsSigned :
      (args : SignArgs) (s : S)
      → (run_sign L D console args s).0 ≡ ok tt
      → IsSigned args s (run_sign L D console args s).1.1
  unfolding run_sign refuse_overwrite reads signed_archive
  run_sign-IsSigned args s h =
      let (done, _, h1, e1) = >>=-ok (reads _) _ s tt h in
      let (secret, loaded, h2, e2) =
        >>=-ok (reads (load_key L D console args.signing_key args.signing_key_password_file)) _ s tt
          h1 in
      let (signed, made, h3, e3) =
        >>=-ok (reads (λ s. signed_archive L (D.host s) (D.files s) args secret)) _ s tt h2 in
      let (bytes, some_bytes, h4, e4) = >>=-ok (returned signed) _ s tt h3 in
      let (o, same) = returned-ok signed s bytes some_bytes in
      let (done', wrote, h5, e5) =
        >>=-ok (write_new_file L D console args.output bytes) _ _ tt h4 in
      let after = write_new_file-ok args.output bytes (returned signed s).1.1 wrote in
      let printed = println-Unchanged L (text "wrote " ∷ text args.output ∷ []) _ in
      let (source, read, resigned) =
        >>=-eq-ok (read_archive (D.files s) args.archive default_limits.max_compressed_bytes) _
          (stop_at-eq-ok _ made ∙ ap ok o) in
      record {
        secret = secret;
        loaded = stop_at-eq-ok _ loaded;
        source = source;
        read = read;
        bytes = bytes;
        signed =
            resign-IsResigned (D.host s) L.cedar L.engine L.printing L.crypto L.writer L.reader
              L.codec source secret default_limits bytes resigned;
        wrote = (
          subst (λ x. filing.content x args.output ≡ none) same after.0,
          subst (λ x. filing.content x args.output ≡ some bytes)
              (sym (e1 ∙ e2 ∙ e3 ∙ e4 ∙ e5 ∙ printed)) after.1,
        );
      }
