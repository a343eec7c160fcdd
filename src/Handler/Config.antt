-- ===== src/Handler/Config.antt =====
-- What changes the handler's settings while it runs (the setters of handler.go). Stopping the loop
-- of an old rate limiter is left out.
use domudns.Prelude.{Bool, List, Option, not, text_beq, if◌then◌else◌}
use domudns.Text.{Text, codes}
use domudns.Net.{IpNet}
use domudns.Access
use domudns.Access.{ResolvedGroup, SplitHorizonConfig, new_rebinding_config}
use domudns.Handler.State.{Settings, World}
use domudns.RateLimit.{QueryRateLimiter}

abbrev pub zero_ip : Text
zero_ip = codes "zero_ip"

module _ {R : Type 0} where
  unfoldable pub update_block_mode : Settings R → Text → Settings R
  update_block_mode cfg mode =
      let known = if not (text_beq mode (codes "nxdomain")) then zero_ip else mode in
      record cfg { block_mode = known }

  unfoldable pub update_rebinding_protection : Settings R → Bool → List Text → Settings R
  update_rebinding_protection cfg enabled whitelist = record cfg {
    rebinding = new_rebinding_config enabled whitelist;
  }

  unfoldable pub set_access_control : Settings R → List IpNet → Settings R
  set_access_control cfg allowed = record cfg { acl = Access.set_access_control allowed }

  unfoldable pub set_split_horizon_resolver : Settings R → Option SplitHorizonConfig → Settings R
  set_split_horizon_resolver cfg r = record cfg { split_horizon = r }

  unfoldable pub set_client_group_resolver : Settings R → Option (List ResolvedGroup) → Settings R
  set_client_group_resolver cfg r = record cfg { client_groups = r }

  unfoldable pub set_acme_challenge_reader : Settings R → Option (Text → Option Text) → Settings R
  set_acme_challenge_reader cfg r = record cfg { acme = r }

  unfoldable pub set_ddns_handler : Settings R → Bool → Settings R
  set_ddns_handler cfg present = record cfg { has_ddns = present }

  unfoldable pub set_axfr_handler : Settings R → Bool → Settings R
  set_axfr_handler cfg present = record cfg { has_axfr = present }

unfoldable pub set_rate_limiter : {L : Type 0} → World L → Option (QueryRateLimiter L) → World L
set_rate_limiter w l = record w { limiter = l }
