-- ===== src/Update/Install.antt =====
-- Fetching a release and replacing the program of internal/update/update.go: `Fetch`, `Replace` and
-- `Rollback`.
pub mod Kept
pub mod Saved
pub mod Atomic
pub mod Content
pub mod Verified
use nomctl.Prelude.{
  ℕ, Bool, true, false, not, ◌&&◌, Option, none, some, List, [], ◌∷◌, ◌++◌, Text, bytes, text_eq,
  ◌==◌, Result, ok, err, if◌then◌else◌,
}
use nomctl.AlertProto.Sign.{hex_encode}
use nomctl.Host.{World, ◌>>=◌, ◌>>◌, pure, raise, or_else, ignore}
use nomctl.Update.Disk.{Act, exists, rename, copy_file, link, remove_file}
use nomctl.Update.Version.{split_at, archive_name}

-- What a fetch takes from the network and the standard library: the download of an address, the digest,
-- and the program in an archive.
pub record Fetcher : Type 0 where
  pub download : Text → Result Text Text
  pub fields : Text → List Text
  pub sha256 : Text → Text
  pub extract : Text → Result Text Text

-- The loop over the lines of checksums.txt: the last entry of the name counts.
abbrev pub listed : Text → Text → List Text → Text
listed name want (sum ∷ n ∷ []) = if n == name then sum else want
listed name want _ = want

unfoldable pub wanted_sum : (Text → List Text) → Text → List Text → Text → Text
wanted_sum fields name [] want = want
wanted_sum fields name (line ∷ ls) want = wanted_sum fields name ls (listed name want (fields line))

unfoldable pub check_archive : Fetcher → Text → Text → Text → Result Text Text
check_archive f name want archive =
    let got = hex_encode (f.sha256 archive) in
    if got == want
    then f.extract archive
    else err
        (bytes "checksum mismatch for " ++ name ++ bytes ": got " ++ got ++ bytes ", want " ++ want)

abbrev fetch_archive : Fetcher → Text → Text → Result Text Text → Result Text Text
fetch_archive f name want (err e) = err e
fetch_archive f name want (ok archive) = check_archive f name want archive

abbrev fetch_listed : Fetcher → Text → Text → Text → Result Text Text → Result Text Text
fetch_listed f base name tag (err e) = err e
fetch_listed f base name tag (ok sums) =
    let want = wanted_sum f.fields name (split_at 10 sums) [] in
    if want == []
    then err (name ++ bytes " is not listed in checksums.txt for " ++ tag)
    else fetch_archive f name want (f.download (base ++ name))

unfoldable pub fetch : Fetcher → Text → Text → Text → Result Text Text
fetch f repo tag goarch =
    let base =
      bytes "https://github.com/" ++ repo ++ bytes "/releases/download/" ++ tag ++ bytes "/" in
    fetch_listed f base (archive_name tag goarch) tag (f.download (base ++ bytes "checksums.txt"))

abbrev pub previous_of : Text → Text
previous_of target = target ++ bytes ".previous"

abbrev pub staged_of : Text → Text
staged_of target = target ++ bytes ".staged"

module _ (world : World) where
  -- A link, or a copy where the file system has none.
  unfoldable pub link_or_copy : Text → Act Unit
  link_or_copy target =
      or_else (link world target (previous_of target))
        (λ _. copy_file world target (previous_of target))

  unfoldable pub keep_copy : Text → Act Unit
  keep_copy target = ignore (remove_file world (previous_of target)) >> link_or_copy target

  unfoldable pub keep_previous : Text → Act Unit
  keep_previous target = do there ← exists target; if there then keep_copy target else pure tt

  unfoldable pub discard_staged : Text → Text → Act Unit
  discard_staged target e =
      ignore (remove_file world (staged_of target))
      >> raise (bytes "install " ++ target ++ bytes ": " ++ e)

  unfoldable pub install_staged : Text → Act Unit
  install_staged target = or_else (rename world (staged_of target) target) (discard_staged target)

  unfoldable pub stage : Text → Text → Act Unit
  stage new target = copy_file world new (staged_of target) >> install_staged target

  unfoldable pub replace : Text → Text → Act Unit
  replace new target = keep_previous target >> stage new target

  unfoldable pub put_back : Text → Act Unit
  put_back target =
      copy_file world (previous_of target) (staged_of target)
      >> rename world (staged_of target) target

  unfoldable pub rollback : Text → Act Unit
  rollback target = do
    there ← exists (previous_of target)
    if there then put_back target else raise (bytes "no previous binary at " ++ previous_of target)
