-- ===== src/Update/Cache.antt =====
-- The cached check of internal/update/update.go: `Run`, and the lines of `Lines`.
pub mod Fresh
use nomctl.Prelude.{
  ℕ, ◌-◌, Bool, true, false, not, ◌&&◌, Option, none, some, List, [], ◌∷◌, ◌++◌, Text, bytes,
  text_eq, ◌==◌, ltb, leb, nat_eqb, length, take, Result, ok, err, if◌then◌else◌,
}
use nomctl.Time.{Time, Duration, hour}
use nomctl.Update.Version.{Strings, trim_v, newer, same_commit}

pub record Check : Type 0 where
  pub checked_at : Time
  pub repo : Text
  pub nomctl_latest : Text
  pub node_repo : Text
  pub node_branch : Text
  pub node_remote : Text
  pub nomctl_err : Text
  pub node_remote_err : Text

pub record CheckOptions : Type 0 where
  pub repo : Text
  pub node_repo : Text
  pub node_branch : Text
  pub ttl : Duration

abbrev pub cache_ttl : Duration
cache_ttl = hour

-- What the two checks answer over the network: a tag or a commit, or the text of an error.
pub record Network : Type 0 where
  pub latest_tag : Text → Result Text Text
  pub remote_head : Text → Text → Result Text Text

-- `opts.TTL`, with its default for 0.
abbrev pub ttl_of : CheckOptions → Duration
ttl_of opts = if nat_eqb opts.ttl 0 then cache_ttl else opts.ttl

-- Whether a cached check can be used again.
unfoldable pub is_fresh : Time → CheckOptions → Check → Bool
is_fresh now opts c =
    ltb (now - c.checked_at) (ttl_of opts)
    && c.repo == opts.repo
    && c.node_repo == opts.node_repo
    && c.node_branch == opts.node_branch

abbrev with_tag : Result Text Text → Check → Check
with_tag (ok tag) c = record c { nomctl_latest = tag }
with_tag (err e) c = record c { nomctl_err = e }

abbrev with_head : Result Text Text → Check → Check
with_head (ok head) c = record c { node_remote = head }
with_head (err e) c = record c { node_remote_err = e }

unfoldable pub new_check : Network → Time → CheckOptions → Check
new_check net now opts =
    let c = with_tag (net.latest_tag opts.repo) (record {
      checked_at = now;
      repo = opts.repo;
      nomctl_latest = [];
      node_repo = opts.node_repo;
      node_branch = opts.node_branch;
      node_remote = [];
      nomctl_err = [];
      node_remote_err = [];
    }) in
    if opts.node_repo == []
    then c
    else with_head (net.remote_head opts.node_repo opts.node_branch) c

-- `Run`: the check, and what the cache holds then. `writable` tells whether the cache can be written.
unfoldable pub run_check :
    Network → Bool → Time → CheckOptions → Option Check → Check × Option Check
run_check net writable now opts none =
    let c = new_check net now opts in (c, if writable then some c else none)
run_check net writable now opts (some old) =
    if is_fresh now opts old
    then (old, some old)
    else let c = new_check net now opts in (c, if writable then some c else some old)

unfoldable pub short_commit : Text → Text
short_commit c = if leb (length c) 7 then c else take 7 c

abbrev keep_line : Bool → Text → List Text → List Text
keep_line b t ts = if b then t ∷ ts else ts

unfoldable pub lines : Strings → Check → Text → Text → List Text
lines strings c running node_commit =
    keep_line (not (c.nomctl_latest == []) && newer strings c.nomctl_latest running)
      (bytes "nomctl "
        ++ trim_v c.nomctl_latest
        ++ bytes " available (running "
        ++ running
        ++ bytes "): sudo nomctl upgrade")
      (keep_line
        (not (c.node_remote == [])
          && not (node_commit == [])
          && not (same_commit strings node_commit c.node_remote))
        (bytes "go-zenon "
          ++ c.node_branch
          ++ bytes " has new commits (deployed "
          ++ short_commit node_commit
          ++ bytes ", remote "
          ++ short_commit c.node_remote
          ++ bytes "): sudo nomctl deploy")
        [])
