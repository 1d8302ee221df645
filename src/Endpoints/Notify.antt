-- ===== src/Endpoints/Notify.antt =====
-- packages/shared/src/endpoints.ts: the paths of notification channels, groups, rules and policy, alerts and health checks.
use server_hub.Prelude.{ℕ, List, [], ◌∷◌, ◌++◌, Option, if◌then◌else◌}
use server_hub.Text.{Text}
use server_hub.Routing.{lit, val, Template, num}
use server_hub.Endpoints.Parts.{api, default, is_truthy, set_text, set_num, suffix}

unfoldable pub notify_settings : Template
notify_settings = api ∷ lit "/settings/notifications" ∷ []

unfoldable pub notify_test : Template
notify_test = api ∷ lit "/settings/notifications/test" ∷ []

unfoldable pub notification_groups : Template
notification_groups = api ∷ lit "/notification-groups" ∷ []

unfoldable pub notification_group : ℕ → Template
notification_group id = api ∷ lit "/notification-groups/" ∷ num id ∷ []

unfoldable pub notification_group_members : ℕ → Template
notification_group_members id = api ∷ lit "/notification-groups/" ∷ num id ∷ lit "/members" ∷ []

unfoldable pub notification_group_member : ℕ → ℕ → Template
notification_group_member id member_id =
    api ∷ lit "/notification-groups/" ∷ num id ∷ lit "/members/" ∷ num member_id ∷ []

unfoldable pub notification_rules : Template
notification_rules = api ∷ lit "/notification-rules" ∷ []

unfoldable pub notification_rule : ℕ → Template
notification_rule id = api ∷ lit "/notification-rules/" ∷ num id ∷ []

unfoldable pub notification_policy : Template
notification_policy = api ∷ lit "/notification-policy" ∷ []

pub record DeliveriesParams : Type 0 where
  pub status : Option Text
  pub channel : Option Text
  pub limit : Option ℕ

-- The pairs that are set, in order.
unfoldable pub notification_deliveries_query : DeliveriesParams → List (Text × Text)
notification_deliveries_query p =
    set_text "status" p.status ++ set_text "channel" p.channel ++ set_num "limit" p.limit

unfoldable pub notification_deliveries : DeliveriesParams → Template
notification_deliveries p =
    api ∷ lit "/notification-deliveries" ∷ suffix (notification_deliveries_query p)

unfoldable pub maintenance_windows : Template
maintenance_windows = api ∷ lit "/maintenance-windows" ∷ []

unfoldable pub maintenance_window : ℕ → Template
maintenance_window id = api ∷ lit "/maintenance-windows/" ∷ num id ∷ []

-- An absent or empty status adds no query.
unfoldable pub alerts : Option Text → Template
alerts status =
    api
    ∷ lit "/alerts"
    ∷ (if is_truthy status then lit "?status=" ∷ val (default [] status) ∷ [] else [])

unfoldable pub alert_resolve : ℕ → Template
alert_resolve id = api ∷ lit "/alerts/" ∷ num id ∷ lit "/resolve" ∷ []

unfoldable pub notifications : Template
notifications = api ∷ lit "/notifications" ∷ []

unfoldable pub notification_read : ℕ → Template
notification_read id = api ∷ lit "/notifications/" ∷ num id ∷ lit "/read" ∷ []

unfoldable pub notifications_read_all : Template
notifications_read_all = api ∷ lit "/notifications/read-all" ∷ []

unfoldable pub health_checks : Template
health_checks = api ∷ lit "/health-checks" ∷ []

unfoldable pub health_check : ℕ → Template
health_check id = api ∷ lit "/health-checks/" ∷ num id ∷ []

unfoldable pub health_check_results : ℕ → Template
health_check_results id = api ∷ lit "/health-checks/" ∷ num id ∷ lit "/results" ∷ []
