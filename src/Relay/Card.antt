-- ===== src/Relay/Card.antt =====
-- The status of a node as the bot shows it: internal/relay/card.go.
pub mod Agrees
use nomctl.Prelude.{
  ℕ, ◌+◌, ◌-◌, ◌*◌, ◌/◌, ◌%◌, ◌^◌, Bool, true, false, not, ◌&&◌, List, [], ◌∷◌, ◌++◌, Text, bytes,
  text_eq, ◌==◌, nat_eqb, ltb, leb, length, drop, starts_with, format_nat, if◌then◌else◌,
}
use nomctl.Time.{Time, Duration, second}
use nomctl.AlertProto.{Summary}
use nomctl.Metrics.{Floats}
use nomctl.Relay.Store.{Node}
use nomctl.Relay.Markdown.{escape, bold}
use nomctl.Relay.Server.{dot, green_icon, red_icon}

-- The loop of `commas`: a comma before each digit, but the first, that has a multiple of three digits
-- from it on.
unfoldable pub comma_loop : Bool → Text → Text
comma_loop later [] = []
comma_loop later (c ∷ s) =
    let rest = c ∷ comma_loop true s in
    if later && nat_eqb (length (c ∷ s) % 3) 0 then b',' ∷ rest else rest

unfoldable pub card_commas : ℕ → Text
card_commas n = let s = format_nat n in if leb (length s) 3 then s else comma_loop false s

-- `d.Round(time.Second)`
unfoldable pub round_second : Duration → Duration
round_second d = (d + 500000000) / second * second

unfoldable pub human_age : Duration → Text
human_age d =
    let days = d / 3600000000000 / 24 in
    let hours = d / 3600000000000 % 24 in
    let mins = d / 60000000000 % 60 in
    let secs = d / second % 60 in
    if ltb 0 days
    then format_nat days ++ bytes "d " ++ format_nat hours ++ bytes "h"
    else if ltb 0 hours
    then format_nat hours ++ bytes "h " ++ format_nat mins ++ bytes "m"
    else if ltb 0 mins
    then format_nat mins ++ bytes "m " ++ format_nat secs ++ bytes "s"
    else format_nat secs ++ bytes "s"

-- `strings.Join(parts, " · ")`
unfoldable pub join_dots : List Text → Text
join_dots [] = []
join_dots (t ∷ []) = t
join_dots (t ∷ u ∷ ts) = t ++ dot ++ join_dots (u ∷ ts)

-- A list with the text if the test holds.
abbrev pub part : Bool → Text → List Text → List Text
part b t ts = if b then t ∷ ts else ts

abbrev pub is_blank : Text → Bool
is_blank t = t == []

-- A labelled line, or nothing for an empty text.
unfoldable pub line : Text → Text → Text
line label text = if is_blank text then [] else 10 ∷ bold label ++ bytes " " ++ escape text

unfoldable pub card_head : Node → Time → Text
card_head n now =
    (if n.silent
      then red_icon ++ bytes " " ++ bold n.name ++ dot ++ bytes "silent"
      else green_icon ++ bytes " " ++ bold n.name)
    ++ (if not (is_blank n.host) && not (n.host == n.name) then dot ++ escape n.host else [])
    ++ dot
    ++ bytes "seen "
    ++ escape (human_age (round_second (now - n.last_seen)))
    ++ bytes " ago"

unfoldable pub peers_text : Summary → Text
peers_text s =
    format_nat s.peers
    ++ dot
    ++ bytes "restarts "
    ++ format_nat s.restarts
    ++ (if ltb 0 s.uptime_seconds
        then dot ++ bytes "up " ++ human_age (s.uptime_seconds * second)
        else [])

unfoldable pub frontier_text : Summary → Text
frontier_text s =
    if s.ledger_busy
    then bytes "ledger busy (inserting momentums)"
    else if ltb 0 s.frontier
    then card_commas s.frontier
      ++ dot
      ++ human_age (s.frontier_age_seconds * second)
      ++ bytes " ago"
    else []

unfoldable pub pillar_text : Summary → Text
pillar_text s =
    if is_blank s.pillar_name
    then []
    else if not (is_blank s.pillar_error)
    then s.pillar_name ++ bytes ": " ++ s.pillar_error
    else s.pillar_name
      ++ bytes " rank "
      ++ format_nat s.pillar_rank
      ++ dot
      ++ format_nat s.pillar_produced
      ++ bytes " / "
      ++ format_nat s.pillar_expected
      ++ bytes " produced this epoch"

unfoldable pub node_text : Summary → Text
node_text s = join_dots (
    part (not (is_blank s.node_version))
      (bytes "znnd "
        ++ s.node_version
        ++ (if is_blank s.node_commit then [] else bytes " (" ++ s.node_commit ++ bytes ")"))
      (part (not (is_blank s.nomctl_version)) (bytes "nomctl " ++ s.nomctl_version) []))

abbrev pub without_v : Text → Text
without_v s = if starts_with (bytes "v") s then drop 1 s else s

unfoldable pub update_text : Summary → Text
update_text s = join_dots (
    part (not (is_blank s.nomctl_update))
      (bytes "nomctl " ++ without_v s.nomctl_update ++ bytes " available")
      (part s.node_update (bytes "go-zenon has new commits") []))

module _ (floats : Floats) where
  unfoldable pub gb : ℕ → Text
  gb b =
      if leb (2 ^ 40) b
      then floats.one_decimal (floats.over (floats.of_nat b) (floats.of_nat (2 ^ 40)))
        ++ bytes " TB"
      else if leb (2 ^ 30) b
      then floats.one_decimal (floats.over (floats.of_nat b) (floats.of_nat (2 ^ 30)))
        ++ bytes " GB"
      else floats.whole (floats.over (floats.of_nat b) (floats.of_nat (2 ^ 20))) ++ bytes " MB"

  unfoldable pub sync_text : Summary → Text
  sync_text s =
      s.state
      ++ (if ltb 0 s.height
          then bytes " "
            ++ card_commas s.height
            ++ (if ltb 0 s.target_height
                then bytes " / "
                  ++ card_commas s.target_height
                  ++ bytes " ("
                  ++ floats.one_decimal (
                      floats.times
                        (floats.over (floats.of_nat s.height) (floats.of_nat s.target_height))
                        (floats.of_nat 100))
                  ++ bytes "%)"
                else [])
          else [])
      ++ (if floats.gt s.momentum_rate (floats.of_nat 0)
          then dot ++ floats.one_decimal s.momentum_rate ++ bytes " mom/s"
          else [])
      ++ (if ltb 0 s.eta_seconds
          then dot ++ bytes "ETA " ++ human_age (s.eta_seconds * second)
          else [])

  -- `s.DiskFree*100/s.DiskTotal` in uint64.
  unfoldable pub host_text : Summary → Text
  host_text s = join_dots (
      part (ltb 0 s.mem_total) (bytes "load " ++ floats.one_decimal s.load1) (
        part (ltb 0 s.mem_total)
          (bytes "mem " ++ gb s.mem_free ++ bytes " / " ++ gb s.mem_total ++ bytes " free")
          (part (ltb 0 s.disk_total)
            (bytes "disk "
              ++ gb s.disk_free
              ++ bytes " / "
              ++ gb s.disk_total
              ++ bytes " free ("
              ++ format_nat (s.disk_free * 100 % 2 ^ 64 / s.disk_total)
              ++ bytes "%)")
            [])))

  unfoldable pub process_text : Summary → Text
  process_text s =
      if ltb 0 s.rss
      then bytes "cpu "
        ++ floats.whole s.cpu_percent
        ++ bytes "%"
        ++ dot
        ++ bytes "rss "
        ++ gb s.rss
      else []

  unfoldable pub node_card : Node → Time → Text
  node_card n now =
      let s = n.summary in
      if is_blank s.state
      then card_head n now
      else card_head n now
        ++ line (bytes "Sync") (sync_text s)
        ++ line (bytes "Frontier") (frontier_text s)
        ++ line (bytes "Peers") (peers_text s)
        ++ line (bytes "Pillar") (pillar_text s)
        ++ line (bytes "Node") (node_text s)
        ++ line (bytes "Host") (host_text s)
        ++ line (bytes "Process") (process_text s)
        ++ line (bytes "Update") (update_text s)
