-- ===== src/Update/Cache/Fresh.antt =====
-- `Run` of internal/update/update.go, and what a check is about.
use nomctl.Prelude.{
  ◌+◌, ◌<◌, ◌≡◌, inl, inr, Bool, Option, none, some, text_eq, text_eqb_iff, arith, Bool-cases,
}
use nomctl.Time.{Time}
use nomctl.Update.Cache.{Check, CheckOptions, Network, ttl_of, is_fresh, new_check, run_check}

-- The check is of the repositories and the branch that the options name.
pub record IsAbout (opts : CheckOptions) (c : Check) : Type 0 where
  pub repo : c.repo ≡ opts.repo
  pub node_repo : c.node_repo ≡ opts.node_repo
  pub node_branch : c.node_branch ≡ opts.node_branch

IsAbout-new_check :
    (net : Network) (now : Time) (opts : CheckOptions) → IsAbout opts (new_check net now opts)
unfolding new_check
IsAbout-new_check net now opts = record {
  repo = ground arith;
  node_repo = ground arith;
  node_branch = ground arith;
}

ttl_positive : (opts : CheckOptions) → 0 < ttl_of opts
ttl_positive opts = ground arith

checked_at-new_check :
    (net : Network) (now : Time) (opts : CheckOptions) → (new_check net now opts).checked_at ≡ now
unfolding new_check
checked_at-new_check net now opts = ground arith

-- A check answers for the repositories and the branch that were asked for, whatever the cache held,
-- and it was made less than the configured age ago.
pub run_check-IsAbout :
    (net : Network) (writable : Bool) (now : Time) (opts : CheckOptions) (cached : Option Check)
    → IsAbout opts (run_check net writable now opts cached).0
      × (now < (run_check net writable now opts cached).0.checked_at + ttl_of opts)
unfolding run_check is_fresh
run_check-IsAbout net writable now opts none = (
  IsAbout-new_check net now opts,
  omega (arith, ttl_positive opts, checked_at-new_check net now opts),
)
run_check-IsAbout net writable now opts (some old) = elim (Bool-cases (is_fresh now opts old)) [
  | inr expired ↦ rw expired (
    IsAbout-new_check net now opts,
    omega (arith, ttl_positive opts, checked_at-new_check net now opts),
  )
  | inl fresh ↦ rw fresh (
    record {
      repo = ground (arith, text_eqb_iff old.repo opts.repo);
      node_repo = ground (arith, text_eqb_iff old.node_repo opts.node_repo);
      node_branch = ground (arith, text_eqb_iff old.node_branch opts.node_branch);
    },
    ground arith,
  )
]
