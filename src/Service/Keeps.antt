-- ===== src/Service/Keeps.antt =====
-- The unit's operations leave the files, and what they do to the unit.
use nomctl.Prelude.{Option, Text, text_eq}
use nomctl.Host.{Entry, World}
use nomctl.Host.Keeps.{Keeps, keeps_rules}
use nomctl.Host.Files.{Holds, holds_rules}
use nomctl.Host.Trees.{trees_rules}
use nomctl.Service.{status, service_exists, start, stop}

module _ (world : World) (q : Text) (o : Option Entry) (name : Text) where
  pub Holds-status : Keeps (Holds q o) (status world name)
  unfolding status
  Holds-status = search (keeps_rules, holds_rules, trees_rules) depth 10

  pub Holds-service_exists : Keeps (Holds q o) (service_exists world name)
  unfolding service_exists
  Holds-service_exists = search trees_rules depth 3

  pub Holds-start : Keeps (Holds q o) (start world name)
  unfolding start status service_exists
  Holds-start = search (keeps_rules, holds_rules, trees_rules) depth 14

  pub Holds-stop : Keeps (Holds q o) (stop world name)
  unfolding stop status
  Holds-stop = search (keeps_rules, holds_rules, trees_rules) depth 14

pub ruleset service_rules = (Holds-status, Holds-start, Holds-stop)
