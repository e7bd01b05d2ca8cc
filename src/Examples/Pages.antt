-- ===== src/Examples/Pages.antt =====
-- The theorem on the status page at a concrete input.
use sentinelix_backend.Base.{some, [], ◌∷◌, ◌^◌, true, false}
use sentinelix_backend.Domain.Account.{Project}
use sentinelix_backend.World.{World}
use sentinelix_backend.Examples.{quiet, site}

abbrev shop : Project
shop = record {
  id = site.project_id;
  user_id = 3;
  name = "shop";
  api_key_hash = "k";
  slug = "shop-1";
  created_at = 0;
}

-- Two monitors, one down; of the three checks, two were up.
abbrev published : World
published = record quiet {
  projects = shop ∷ [];
  monitors = site ∷ record site { id = 60; name = some ""; status = "down" } ∷ [];
  checks =
      record {
        id = 1;
        monitor_id = site.id;
        status_code = 200;
        latency_ms = 5;
        is_up = true;
        checked_at = 10 ^ 12;
      }
      ∷ record {
        id = 2;
        monitor_id = site.id;
        status_code = 500;
        latency_ms = 5;
        is_up = false;
        checked_at = 10 ^ 12;
      }
      ∷ record {
        id = 3;
        monitor_id = site.id;
        status_code = 200;
        latency_ms = 5;
        is_up = true;
        checked_at = 10 ^ 12;
      }
      ∷ [];
}
