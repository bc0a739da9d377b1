-- ===== src/Agent/Routing.antt =====
-- Where an alert of a tenant is pushed to: `_tenant_env_suffix`, `ntfy_topic_for` and
-- `discord_webhook_for` of scripts/setup/ai_agent/agent.py. The environment is a function of a
-- variable's name; none is a name that is not set.
pub mod Apart
use Prim.Native.Char.{Char, code}
use Prim.Native.String.{[], ◌∷◌, ◌++◌}
use suburban_soc.Base.Text.{in_range, nth}
use suburban_soc.Base.{◌-◌, String, Option, none, some, ◌==◌, nat_eq, string_eq, if◌then◌else◌}

-- `upper` and `replace("-", "_")` of one character, as far as its result is ASCII
unfoldable pub env_char : Char → Char
unfolding nth
env_char c =
    if in_range b'a' b'z' (code c)
    then nth "ABCDEFGHIJKLMNOPQRSTUVWXYZ" (code c - b'a') c
    else if code c == b'-'
    then "_"
    else c

unfoldable pub tenant_env_suffix : String → String
unfolding env_char
tenant_env_suffix [] = []
tenant_env_suffix (c ∷ s) = env_char c ∷ tenant_env_suffix s

abbrev pub Environ : Type 0
Environ = String → Option String

-- `get(name)` where it is set and not empty, else the global value
unfoldable pub or_global : Option String → String → String
or_global none global = global
or_global (some v) global = if v == "" then global else v

unfoldable pub ntfy_topic_for : Environ → String → String → String
unfolding or_global
ntfy_topic_for environ ntfy_topic tenant =
    if tenant == "unassigned"
    then ntfy_topic
    else or_global (environ ("NTFY_TOPIC_" ++ (tenant_env_suffix tenant))) ntfy_topic

unfoldable pub discord_webhook_for : Environ → String → String → String
unfolding or_global
discord_webhook_for environ discord_webhook_url tenant =
    if tenant == "unassigned"
    then discord_webhook_url
    else or_global (environ ("DISCORD_WEBHOOK_URL_" ++ (tenant_env_suffix tenant)))
        discord_webhook_url
