-- ===== src/Lib.antt =====
-- ServerHub: the client side of the program and its contract with the server.
--
-- ServerHub watches a fleet of servers. A Go server (server/) offers an HTTP API; a web client
-- (client/, React) and a mobile client (mobile/, React Native) talk to it, and share path builders,
-- types, formatters and the vocabulary of statuses (packages/shared/). Every call of the web client
-- is a method of `api`, `transfersApi` or `dbBackupsApi`; it builds a path with
-- packages/shared/src/endpoints.ts and goes out through `req`, which renews an expired session.
--
-- Files:
--   Prelude, Text, Json    numbers and lists; strings with trim, toLowerCase, encodeURIComponent,
--                          URLSearchParams; JSON values. What the sources use of JavaScript.
--   Routing                path templates, gin's route patterns, and when a path, decoded as gin decodes
--                          it (Text/Uri/Decoded), meets a pattern.
--   Endpoints              packages/shared/src/endpoints.ts, one definition per path builder.
--   Api                    client/src/lib/api.ts: one constructor per call, `request` is what the
--                          call hands to `req`; Api/Calls joins them.
--   Server                 the routes that server/cmd/server/main.go registers; Roles has
--                          server/internal/middleware/roles.go, and Rules of
--                          server/internal/handlers/notification_rules.go what an update merges.
--   Session                client/src/lib/api.ts: `refreshSession`, `req`, `uploadReq`; Flight has
--                          many calls at once and the shared `refreshPromise`.
--   Mobile                 mobile/src/api/*.ts (Calls), their axios client with its interceptors
--                          (Session) and the address of the server (Address), and
--                          mobile/src/stores/authStore.ts (Account); Phone is the device under them.
--                          Monitoring has mobile/app/(app)/monitoring.tsx.
--   Status, Format         packages/shared/src/api-types.ts: the vocabularies of statuses and the
--                          description of alerts; packages/shared/src/format.ts.
--   Types                  packages/shared/src/api-types.ts: the objects that the pages below read.
--   Client                 client/src/stores/store.ts (Toasts, Auth), client/src/lib/useEvents.ts
--                          (Events), useDashboard.ts (Dashboard), useTheme.ts and
--                          features/settings/hooks/useAlerts.ts (Preferences),
--                          components/chrome.tsx (Palette), and of client/src/features:
--                          transfers/FileTransfersPage.tsx (Transfers), settings (Rules,
--                          Settings), dbbackups (Backups, one module per tab), and in
--                          dashboard: useProjectDetails.ts (Details), DashboardPage.tsx (Attention,
--                          Transitions, Signals), ServersPage.tsx (Wizard, Servers), DiscoveryModal.tsx
--                          (Discovery), LogsViewer.tsx (Logs), DeployProgress.tsx (Progress), TelemetryPage.tsx
--                          (Telemetry, Chart), ServerDetailPage.tsx (Chart), MonitoringPage.tsx
--                          (Monitoring, Chart), DatabasesPage.tsx (Databases).
--   Examples               the theorems at concrete inputs, and tests.
--
-- Conventions. A string is the list of its Unicode code points (Text); strings with lone
-- surrogates are left out, and lengths agree with JavaScript's in the basic plane. Numbers are
-- natural, and printed as JavaScript prints them below 10^21; a percentage or another measured
-- value is a number of hundredths. Numbers below zero are left out but in PromChart and in the rule
-- form. A coordinate of a chart is the exact quotient, rounded. A template literal is the list of
-- its pieces, so that what a `${ }`
-- puts in stays visible. The network, the clock and the storage of a device are parameters: a
-- function that answers requests and carries a state of its own. A device that may fail
-- (Mobile.Phone) is a record of operations over such a state; theorems that need its SecureStore
-- to keep what it is given name the law IsReliable. A page is a record of its states; what the
-- user does and what calls bring are the events of a list, in any order. Every loop is recursion
-- on a list, or on the accessibility of a number (the digits of a number in Text.Decimal); nothing
-- runs on fuel.
--
-- Not modelled: what a browser's URL parser does to `.` and `..` segments; the handlers behind the
-- routes, the agent and the database (server/internal but for its roles and the update of a rule,
-- agent); React and React Native rendering, and the queries and tables of pages whose other logic
-- is modelled; of the web client the pages for security, health checks and alerts; of the mobile
-- client the other screens and the biometric and connectivity stores; todayLong, fmtRate and other
-- formatters of fractions.
mod Prelude
pub mod Text
pub mod Types
pub mod Json
pub mod Routing
pub mod Endpoints
pub mod Api
pub mod Server
pub mod Session
pub mod Mobile
pub mod Client
pub mod Status
pub mod Format
mod Examples
