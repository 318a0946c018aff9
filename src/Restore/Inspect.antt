-- ===== src/Restore/Inspect.antt =====
-- The inspection of internal/restore/archive.go: `Inspect`, `walk` and `entryPath`. The reading of tar and
-- gzip, and `path.Clean`, are parameters. The message for another kind of entry leaves out its type.
pub mod Paths
pub mod Safe
use nomctl.Prelude.{
  ℕ, suc, ◌+◌, ◌≡◌, refl, Bool, true, false, not, ◌&&◌, ◌||◌, Option, none, some, List, [], ◌∷◌,
  ◌++◌, Text, bytes, text_eq, ◌==◌, Result, ok, err, any, keep, drop, starts_with, nat_eqb,
  if◌then◌else◌, arith,
}
use nomctl.Backup.{folders}

-- The kinds of entries that the source tells apart.
pub data EntryKind : Type 0 where
  directory regular other : EntryKind

pub record Header : Type 0 where
  pub name : Text
  pub kind : EntryKind
  pub size : ℕ

-- The entries of an archive up to its end or to what cannot be read, and `path.Clean`.
pub record Archives : Type 0 where
  pub headers : Text → List Header × Option Text
  pub clean : Text → Text

pub record Manifest : Type 0 where
  pub folders : List Text
  pub uncompressed : ℕ
  pub files : ℕ

-- `strings.Cut(s, "/")`
unfoldable pub cut : Text → Text × Text
cut [] = ([], [])
cut (c ∷ s) = let (before, after) = cut s in if nat_eqb c b'/' then ([], s) else (c ∷ before, after)

abbrev pub is_folder : Text → Bool
is_folder f = any (λ g. f == g) folders

abbrev pub place : Text → Text × Text → Result Text (Text × Text)
place name (folder, rel) =
    if is_folder folder
    then ok (folder, rel)
    else err (
        bytes "backup entry "
        ++ name
        ++ bytes
            " is outside the chain-data folders [nom network consensus cache]; refusing to restore")

abbrev pub no_slash : Text → Text
no_slash s = if starts_with (bytes "/") s then drop 1 s else s

module _ (a : Archives) where
  unfoldable pub entry_path : Text → Result Text (Text × Text)
  entry_path name =
      let clean = a.clean (b'/' ∷ name) in
      if starts_with (bytes "/..") clean
      then err (bytes "backup entry escapes the archive: " ++ name)
      else if no_slash clean == [] || no_slash clean == bytes "."
      then ok ([], [])
      else place name (cut (no_slash clean))

-- What the callback of `Inspect` keeps: the counts, and the folders seen.
pub record Seen : Type 0 where
  pub present : List Text
  pub uncompressed : ℕ
  pub files : ℕ

abbrev see : Text → Seen → Seen
see folder seen = record seen { present = folder ∷ seen.present }

abbrev pub accept : Header → Text → Text → Seen → Result Text Seen
accept h folder rel seen = elim h.kind [
  | directory ↦ ok (see folder seen)
  | regular ↦
      if rel == []
      then err (
          bytes "backup entry "
          ++ h.name
          ++ bytes " is a file where the "
          ++ folder
          ++ bytes " directory should be; refusing to restore")
      else ok (record {
        present = folder ∷ seen.present;
        uncompressed = seen.uncompressed + h.size;
        files = suc seen.files;
      })
  | other ↦
      err (
        bytes "backup entry " ++ h.name ++ bytes " is not a file or directory; refusing to restore")
]

-- The callback of `Inspect` for one entry.
abbrev pub visit : Header → Result Text (Text × Text) → Seen → Result Text Seen
visit h (err e) seen = err e
visit h (ok (folder, rel)) seen = if folder == [] then ok seen else accept h folder rel seen

abbrev pub after_walk : Option Text → Seen → Result Text Seen
after_walk none seen = ok seen
after_walk (some e) seen = err e

abbrev pub manifest_of : Seen → Result Text Manifest
manifest_of seen =
    let fs = keep (λ f. any (λ g. f == g) seen.present) folders in
    if any (λ f. true) fs
    then ok (record { folders = fs; uncompressed = seen.uncompressed; files = seen.files })
    else err (bytes "backup holds none of the chain-data folders")

abbrev pub and_then : {A B : Type 0} → Result Text A → (A → Result Text B) → Result Text B
and_then (ok a) f = f a
and_then (err e) f = err e

module _ (a : Archives) where
  -- `walk` with the callback of `Inspect`.
  unfoldable pub walk : List Header → Option Text → Seen → Result Text Seen
  walk [] end seen = after_walk end seen
  walk (h ∷ hs) end seen = and_then (visit h (entry_path a h.name) seen) (walk hs end)

  unfoldable pub inspect : Text → Result Text Manifest
  inspect archive =
      let (hs, end) = a.headers archive in
      and_then (walk hs end (record { present = []; uncompressed = 0; files = 0 })) manifest_of
