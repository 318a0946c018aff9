-- ===== src/Tests/Update.antt =====
-- Versions, the cached check, the installation of a release, and the numbers of the card.
use nomctl.Prelude.{
  if◌then◌else◌, ◌*◌, ◌-◌, ℕ, ◌≡◌, ◌↔◌, ◌+◌, ◌<◌, refl, true, false, Option, none, some, List, [],
  ◌∷◌, Text, bytes, text_eq, ◌==◌, Result, ok, err, arith, nat_eqb, ltb, ◌||◌, ◌≢◌, inr,
}
use nomctl.Prelude.Dict.{get, put, remove}
use nomctl.Time.{hour, minute}
use nomctl.Host.{World, or_else, pure, raise, ◌>>=◌}
use nomctl.Update.Disk.{Disk, fresh, content, exists, rename, copy_file, link, remove_file}
use nomctl.AlertProto.Sign.{hex_encode}
use nomctl.Metrics.{human_duration}
use nomctl.Relay.Card.{human_age, round_second}
use nomctl.Relay.Card.Agrees.{human_age-human_duration}
use nomctl.Update.Version.{Strings, Release, trim_v, newer, parse_version, split_at, archive_name}
use nomctl.Update.Version.Order.{IsBefore, newer_iff}
use nomctl.Update.Cache.{Check, CheckOptions, Network, run_check, ttl_of}
use nomctl.Update.Cache.Fresh.{IsAbout, run_check-IsAbout}
use nomctl.Update.Install.{
  Fetcher, fetch, check_archive, wanted_sum, replace, rollback, keep_previous, keep_copy,
  link_or_copy, stage, install_staged, put_back, discard_staged, previous_of, staged_of,
}
use nomctl.Update.Install.Atomic.{replace_failed}
use nomctl.Update.Install.Content.{replace_done, rollback-replace}
use nomctl.Update.Install.Verified.{IsListed, fetch-IsListed}

abbrev digit_value : Text → Option ℕ
digit_value (c ∷ []) = if ltb c 58 then some (c - 48) else none
digit_value _ = none

abbrev plain_strings : Strings
plain_strings = record { trim_space = λ s. s; to_lower = λ s. s; atoi = digit_value }

newer_iff_example : (newer plain_strings (bytes "v1.2.3") (bytes "1.2.0") ≡ true) ↔ (
    (a : Release) × (b : Release) × (parse_version plain_strings (bytes "v1.2.3") ≡ some a)
    × (parse_version plain_strings (bytes "1.2.0") ≡ some b)
    × IsBefore b a)
newer_iff_example = newer_iff plain_strings (bytes "v1.2.3") (bytes "1.2.0")

abbrev options : CheckOptions
options = record { repo = bytes "r"; node_repo = bytes "n"; node_branch = bytes "main"; ttl = 0 }

abbrev network : Network
network = record { latest_tag = λ r. ok (bytes "v1"); remote_head = λ r b. err (bytes "no route") }

abbrev old_check : Check
old_check = record {
  checked_at = minute;
  repo = bytes "r";
  nomctl_latest = bytes "v0";
  node_repo = bytes "n";
  node_branch = bytes "main";
  node_remote = bytes "abc";
  nomctl_err = [];
  node_remote_err = [];
}

run_check-IsAbout_example :
    IsAbout options (run_check network true (3 * hour) options (some old_check)).0
    × (3 * hour
        < (run_check network true (3 * hour) options (some old_check)).0.checked_at
          + ttl_of options)
run_check-IsAbout_example = run_check-IsAbout network true (3 * hour) options (some old_check)

human_age-human_duration_example :
    human_age (round_second (90 * minute)) ≡ human_duration (90 * minute)
human_age-human_duration_example = human_age-human_duration (90 * minute)

abbrev target : Text
target = bytes "/bin/nomctl"

abbrev new_program : Text
new_program = bytes "/tmp/new"

-- The disk after a replacement that failed once the old program was linked.
abbrev disk : Disk
disk = record {
  names = (target, 0) ∷ (previous_of target, 0) ∷ (new_program, 1) ∷ [];
  held = λ i. if nat_eqb i 0 then bytes "one" else bytes "two";
  calls = 0;
}

-- The third call fails and leaves half a file.
abbrev broken : World
broken = record { fails = λ n. nat_eqb n 2; torn = λ n. some (bytes "tw"); clock = λ n. n }

abbrev sound : World
sound = record { fails = λ n. false; torn = λ n. none; clock = λ n. n }

-- The removal of the old copy fails, and later the staging.
abbrev jammed : World
jammed = record { fails = λ n. nat_eqb n 0 || nat_eqb n 3; torn = λ n. none; clock = λ n. n }

replace_fails : (replace broken new_program target disk).0 ≡ err (bytes "input/output error")
unfolding replace keep_previous keep_copy link_or_copy stage install_staged discard_staged exists
    or_else pure raise ◌>>=◌ rename copy_file link remove_file get put remove fresh
replace_fails = refl

staged_apart : (n : ℕ) → get target disk.names ≡ some n → get (staged_of target) disk.names ≢ some n
unfolding get
staged_apart n h q = ground arith

replace_failed_example :
    content target (replace broken new_program target disk).1 ≡ content target disk
replace_failed_example =
    replace_failed broken new_program target disk (bytes "input/output error") staged_apart
      (inr refl) replace_fails

-- Where the old copy is a link to the program and cannot be removed, the program is lost.
program_lost : content target (replace jammed new_program target disk).1 ≡ some []
unfolding replace keep_previous keep_copy link_or_copy stage install_staged discard_staged exists
    or_else pure raise ◌>>=◌ rename copy_file link remove_file get put remove fresh content
program_lost = refl

abbrev replaced : Result Text (Unit {0}) × Disk
replaced = replace sound new_program target disk

replaces : replaced.0 ≡ ok tt
unfolding replace keep_previous keep_copy link_or_copy stage install_staged discard_staged exists
    or_else pure raise ◌>>=◌ rename copy_file link remove_file get put remove fresh
replaces = refl

rolls_back : (rollback sound target replaced.1).0 ≡ ok tt
unfolding rollback put_back replace keep_previous keep_copy link_or_copy stage install_staged
    discard_staged exists or_else pure raise ◌>>=◌ rename copy_file link remove_file get put remove
    fresh
rolls_back = refl

new_there : get new_program disk.names ≡ some 1
unfolding get
new_there = refl

old_there : get target disk.names ≡ some 0
unfolding get
old_there = refl

previous_not_new : get (previous_of target) disk.names ≢ some 1
unfolding get
previous_not_new q = ground arith

staged_not_new : get (staged_of target) disk.names ≢ some 1
unfolding get
staged_not_new q = ground arith

replace_done_example : content target replaced.1 ≡ content new_program disk
replace_done_example =
    replace_done sound new_program target disk 1 new_there previous_not_new staged_not_new replaces

rollback-replace_example : content target (rollback sound target replaced.1).1 ≡ content target disk
rollback-replace_example =
    rollback-replace sound new_program target disk 0 old_there (staged_apart 0 old_there) (inr refl)
      replaces rolls_back

abbrev checksums : Text
checksums = bytes "6e nomctl_1_linux_amd64.tar.gz"

abbrev words : Text → List Text
words t = bytes "6e" ∷ bytes "nomctl_1_linux_amd64.tar.gz" ∷ []

abbrev fetcher : Fetcher
fetcher = record {
  download = λ u.
      if u == bytes "https://github.com/r/releases/download/v1/checksums.txt"
      then ok checksums
      else ok (bytes "n");
  fields = words;
  sha256 = λ t. t;
  extract = λ t. ok (bytes "program");
}

fetches : fetch fetcher (bytes "r") (bytes "v1") (bytes "amd64") ≡ ok (bytes "program")
unfolding fetch check_archive wanted_sum split_at archive_name trim_v hex_encode
fetches = refl

fetch-IsListed_example :
    (archive : Text) × IsListed fetcher (bytes "r") (bytes "v1") (bytes "amd64") archive
    × (fetcher.extract archive ≡ ok (bytes "program"))
fetch-IsListed_example =
    fetch-IsListed fetcher (bytes "r") (bytes "v1") (bytes "amd64") (bytes "program") fetches
