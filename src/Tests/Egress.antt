-- ===== src/Tests/Egress.antt =====
-- Concrete inputs of what leaves the agent: its secrets, its routes and its masks.
use Prim.Native.String.{◌++◌ as ◌<>◌}
use suburban_soc.Agent.Secrets.{resolve_secrets}
use suburban_soc.Agent.Routing.{Environ, tenant_env_suffix, ntfy_topic_for, discord_webhook_for}
use suburban_soc.Agent.Routing.Apart.{with_variable, routes_apart}
use suburban_soc.Agent.Masking.{
  Address, mask_mac, mask_ip, mask_notify_ioc, notify_mac, notify_excluded, is_valid_mac,
}
use suburban_soc.Agent.Masking.Hides.{oui_only, oui_shown}
use suburban_soc.Tenant.{matches_tenant_re}
use suburban_soc.Base.{
  String, ◌≡◌, refl, false, Option, none, some, ◌==◌, nat_eq, string_eq, ne_of_beq, if◌then◌else◌,
}

-- The alert secret used again for approvals, or the approvers' for the broker.
reused :
    resolve_secrets "alert-key" "alert-key" "hive-key"
    ≡ record { hmac_secret = "alert-key"; approver_hmac_secret = ""; hive_mind_secret = "hive-key" }
unfolding resolve_secrets
reused = refl

abbrev environ : Environ
environ name = if name == "NTFY_TOPIC_HOME_SMITH" then some "smith" else none

routed :
    (ntfy_topic_for environ "all" "home-smith" ≡ "smith")
    × (ntfy_topic_for environ "all" "home-jones" ≡ "all")
    × (ntfy_topic_for environ "all" "unassigned" ≡ "all")
unfolding ntfy_topic_for tenant_env_suffix
routed = (refl, refl, refl)

routes_apart_example :
    (ntfy_topic_for
        (with_variable ("NTFY_TOPIC_" <> tenant_env_suffix "home-jones") (some "jones") environ)
        "all"
        "home-smith"
      ≡ ntfy_topic_for environ "all" "home-smith")
    × (discord_webhook_for
          (with_variable
            ("DISCORD_WEBHOOK_URL_" <> tenant_env_suffix "home-jones")
            (some "jones")
            environ)
          ""
          "home-smith"
        ≡ discord_webhook_for environ "" "home-smith")
unfolding matches_tenant_re
routes_apart_example =
    routes_apart environ "all" "" "home-smith" "home-jones" (some "jones") refl refl
      (ne_of_beq "home-smith" "home-jones" refl)

abbrev ip_address : String → Option Address
ip_address ip =
    if ip == "203.0.113.42"
    then some (record { version = 4; text = "203.0.113.42"; network_64 = "" })
    else none

masked :
    (mask_mac "AA:BB-CC:DD-EE:FF" ≡ some "AA:BB-CC:xx-xx:xx")
    × (mask_ip ip_address "203.0.113.42" ≡ "203.0.113.0")
    × (mask_notify_ioc ip_address "unknown" ≡ some "unknown")
unfolding mask_notify_ioc mask_mac mask_ip is_valid_mac
masked = (refl, refl, refl)

oui_shown_example :
    (notify_mac false "AA:BB-CC:DD-EE:FF" ≡ some (oui_only "AA:BB-CC:DD-EE:FF"))
    × (notify_excluded false ip_address "AA:BB-CC:DD-EE:FF" ≡ some (oui_only "AA:BB-CC:DD-EE:FF"))
unfolding is_valid_mac
oui_shown_example = oui_shown false ip_address "AA:BB-CC:DD-EE:FF" refl
