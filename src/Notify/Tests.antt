-- ===== src/Notify/Tests.antt =====
-- The theorems on notifications at concrete rules, events and readings.
use psychic_funicular.Base.{
  ℕ, ◌*◌, true, false, not, ◌&&◌, String, none, List, [], ◌∷◌, ◌≡◌, refl, ◌↔◌, str_eq, str_mem,
  lookup, insert,
}
use psychic_funicular.Base.Int.{pos, ◌-ℤ◌}
use psychic_funicular.Time.{Time, nanos, sub}
use psychic_funicular.Model.{Event, Node}
use psychic_funicular.Notify.Rules.{NotifyRule, rule, minutes_of, matches, resolve_recipients}
use psychic_funicular.Notify.Watched.{DiskStats, DetectorConfig, was_full}
use psychic_funicular.Notify.Recipients.{names, distinct, recipients_of_rule}
use psychic_funicular.Notify.Matching.{TypeFits, LabelsFit, SeverityFits, matches_iff}
use psychic_funicular.Notify.Cooldown.{Request, Spaced, let_through, cooldown_spaces}
use psychic_funicular.Notify.Disks.{readings, alarms, of_key, disk_alarms}
use psychic_funicular.Samples.{exact, node}

abbrev idle : Event
idle = record {
  id = "e1";
  kind = "device.idle";
  severity = "warning";
  source = "n1";
  summary = "";
  dedup_key = "n1|gpu|0";
  labels = ("allocated", "true") ∷ ("owner", "li") ∷ [];
  time = pos 1;
}

abbrev idle_rule : NotifyRule
idle_rule =
    rule "device-idle-allocated" ("device.idle" ∷ []) (("allocated", "true") ∷ [])
      ("${owner}" ∷ "admins" ∷ "li" ∷ "${team}" ∷ []) (minutes_of 120)

-- The owner and the administrators, once each; the label that is missing adds nobody.
recipients_found : resolve_recipients idle_rule.to idle ≡ "li" ∷ "admins" ∷ []
unfolding resolve_recipients
recipients_found = refl

recipients_of_rule_example :
    (distinct (resolve_recipients idle_rule.to idle) ≡ true)
    × ((v : String)
        → str_mem v (resolve_recipients idle_rule.to idle)
          ≡ (names idle idle_rule.to v && not (str_eq v "")))
recipients_of_rule_example = recipients_of_rule idle idle_rule.to

idle_fits :
    (matches idle_rule idle ≡ true)
    ↔ (TypeFits idle_rule idle × LabelsFit idle_rule idle × SeverityFits idle_rule idle)
idle_fits = matches_iff idle_rule idle

abbrev minute : ℕ → Time
minute n = pos (n * 60 * nanos)

abbrev ask : ℕ → Request
ask n = record { rule = idle_rule; event = idle; at = minute n }

abbrev asked : List Request
asked = ask 1 ∷ ask 2 ∷ ask 121 ∷ ask 200 ∷ []

abbrev idle_key : String
idle_key = "device-idle-allocated|n1|gpu|0"

asked-let_through : let_through idle_key (minutes_of 120) [] asked ≡ minute 1 ∷ minute 121 ∷ []
unfolding let_through lookup insert sub ◌-ℤ◌
asked-let_through = refl

cooldown_spaces_example :
    Spaced (minutes_of 120) none (let_through idle_key (minutes_of 120) [] asked)
unfolding lookup
cooldown_spaces_example =
    cooldown_spaces idle_key (minutes_of 120) [] asked refl
      (λ _. refl, (λ _. refl, (λ _. refl, (λ _. refl, tt))))

abbrev thresholds : DetectorConfig exact
thresholds = record {
  disk_threshold = pos 1;
  device_idle_util = pos 0;
  device_idle_duration = minutes_of 30;
}

abbrev reading : String → ℕ → Node × DiskStats exact
reading mount used = (
  node "n1" 4 [],
  record {
    mount = mount;
    fstype = "ext4";
    total_bytes = 100;
    used_bytes = used;
    used_percent = pos used;
    inodes_used_percent = pos 0;
  },
)

abbrev series : List (Node × DiskStats exact)
series =
    reading "/" 90 ∷ reading "/" 100 ∷ reading "/data" 100 ∷ reading "/" 120 ∷ reading "/" 50 ∷ []

disk_alarms_example :
    of_key exact thresholds "n1|/" (readings exact thresholds series ([], [])).1
    ≡ alarms exact thresholds "n1|/" false series
unfolding was_full lookup
disk_alarms_example = disk_alarms exact thresholds "n1|/" series [] []
