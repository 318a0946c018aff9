-- ===== src/Backup/Schedule.antt =====
-- The schedule of internal/backup/backup.go: `ScheduleTime`, `TimerUnit`, `ServiceUnit`, `unitQuote`,
-- `ParseCadence`.
pub mod Laws
use nomctl.Prelude.{
  ℕ, suc, ◌+◌, ◌-◌, ◌*◌, ◌%◌, Bool, true, false, not, ◌&&◌, Option, none, some, List, [], ◌∷◌, ◌++◌,
  Text, bytes, text_eq, ◌==◌, ℤ, pos, negsuc, nat_eqb, ltb, leb, take, drop, starts_with,
  format_nat, format_int, if◌then◌else◌,
}
use nomctl.AlertProto.Sign.{hex_encode}
use nomctl.Update.Version.{split_at}
use nomctl.Backup.{Config, Tools}

abbrev pub timer_name : Text
timer_name = bytes "nomctl-backup"

abbrev hex_digit : ℕ → ℕ
hex_digit c = if ltb c 58 then c - 48 else c - 87

-- `strconv.ParseInt(s, 16, 32)` for the digits that `hex.EncodeToString` writes.
unfoldable pub parse_hex : ℕ → Text → ℕ
parse_hex acc [] = acc
parse_hex acc (c ∷ s) = parse_hex (acc * 16 + hex_digit c) s

abbrev pub derived_hour : Text → ℕ
derived_hour h = 2 + parse_hex 0 (take 2 (drop 2 h)) % 3

abbrev pub hour_of : ℤ → Text → ℕ
hour_of (pos n) h = if leb n 23 then n else derived_hour h
hour_of (negsuc n) h = derived_hour h

unfoldable pub schedule_time : Tools → Text → Text → ℤ → ℕ × ℕ
schedule_time tools hostname service_name hour_override =
    let h = hex_encode (tools.sha256 (hostname ++ service_name)) in
    (hour_of hour_override h, parse_hex 0 (take 2 h) % 60)

-- `%02d`
abbrev two_digits : ℕ → Text
two_digits n = if ltb n 10 then b'0' ∷ format_nat n else format_nat n

unfoldable pub timer_unit : ℕ → ℕ → Text
timer_unit hour minute =
    bytes "[Unit]\nDescription=Scheduled "
    ++ timer_name
    ++ bytes " backup\n\n[Timer]\nOnCalendar=*-*-* "
    ++ two_digits hour
    ++ b':' ∷ two_digits minute
    ++ bytes ":00\nPersistent=true\n\n[Install]\nWantedBy=timers.target\n"

-- `strings.ReplaceAll` of one byte.
unfoldable pub replace_byte : ℕ → Text → Text → Text
replace_byte a t [] = []
replace_byte a t (c ∷ s) =
    let rest = replace_byte a t s in if nat_eqb c a then t ++ rest else c ∷ rest

unfoldable pub unit_quote : Text → Text
unit_quote s = replace_byte b'"' (b'\\' ∷ b'"' ∷ []) (replace_byte b'\\' (b'\\' ∷ b'\\' ∷ []) s)

abbrev environment : Text → Text → Text
environment name value = bytes "Environment=\"NOMCTL_" ++ name ++ b'=' ∷ value ++ bytes "\"\n"

unfoldable pub service_unit : Config → Text → Text
service_unit cfg exec_path =
    bytes "[Unit]\nDescription="
    ++ timer_name
    ++ bytes " backup job\n\n[Service]\nType=oneshot\n"
    ++ environment (bytes "BACKUP_DIR") (unit_quote cfg.backup_dir)
    ++ environment (bytes "ZNN_DIR") (unit_quote cfg.znn_dir)
    ++ environment (bytes "SERVICE_NAME") (unit_quote cfg.service_name)
    ++ environment (bytes "LOG_FILE") (unit_quote cfg.log_file)
    ++ environment (bytes "MIN_FREE_SPACE_KB") (format_nat cfg.min_free_space_kb)
    ++ bytes "ExecStart="
    ++ unit_quote exec_path
    ++ bytes " backup --skip-preflight --max-backups "
    ++ format_int cfg.max_backups
    ++ bytes " --cadence "
    ++ format_int cfg.backup_cadence_days
    ++ bytes "\n"

-- The loop over the words of a line: what follows the first `--cadence` that a word follows.
unfoldable pub find_cadence : List Text → Option Text
find_cadence (f ∷ g ∷ fs) =
    let later = find_cadence (g ∷ fs) in if f == bytes "--cadence" then some g else later
find_cadence _ = none

abbrev words_of : (Text → List Text) → Text → Option Text
words_of fields line =
    if starts_with (bytes "ExecStart=") line then find_cadence (fields line) else none

abbrev first_of : Option Text → Option Text → Option Text
first_of none later = later
first_of (some w) later = some w

unfoldable pub cadence_word : (Text → List Text) → List Text → Option Text
cadence_word fields [] = none
cadence_word fields (line ∷ ls) = first_of (words_of fields line) (cadence_word fields ls)

-- `ParseCadence`, with `strings.Fields` and `strconv.Atoi`; none where ok is false.
unfoldable pub parse_cadence : (Text → List Text) → (Text → Option ℤ) → Text → Option ℤ
parse_cadence fields atoi unit = elim (cadence_word fields (split_at b'\n' unit)) [
  | none ↦ none
  | some w ↦ atoi w
]
