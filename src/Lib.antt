-- ===== src/Lib.antt =====
-- The scripts of the gateway's web console, web_console/static/js/app.js and incidents.js: what
-- their pages show, keep and send.
--
-- The console's pages ask the server for its state (the network, the incidents, the forwarding
-- profiles, the Edge Server's settings), show it, and send back what is filled into their forms.
-- The model keeps, for each part, the state that the script holds and the elements that it writes
-- as one record; each handler is a function on it, and an answer of the server, a press or a time
-- is an argument, so that every order of answers and presses is a list of events.
--
-- Prelude: tests, lists, text and integers that the parts share. Its numbers are the native ones;
--   `to_string` prints a number with as much fuel as the number, plus one, which is enough since
--   each step divides it by ten.
-- Format: the durations and ages of all pages (`_fmtDur`, `_stFmt`, `_fmtDurMon`, `_fwDur`,
--   `duration`, `_fwdAgo`, `_fwAgo`, `fmtAgo`).
-- Incidents: incidents.js. Escape is `esc`; Paging is `paginate`, `pageNumbers` and `pagerHtml`,
--   whose loop runs for as many rounds as there are pages; Panel is `attachPanel`, Drawer is
--   `attachDrawer`, Kpi is `kpiHtml` and the figures of `attachPilotSummary`.
--   PageList is the lists of incidents that three pages draw themselves (`fwIncRender`,
--   `esIncRender`, `incRenderList`).
-- Timeline: the lists behind the buttons "Newer" and "Older" (`fwRenderAuditPage`,
--   `evRenderTimeline`, `svRenderIssues`).
-- Network: the network state of the server, in the fields that app.js reads.
-- Overview: `applyOverviewState`; Banner has its badge and alerts, View all that it writes;
--   IncidentBand is `refreshOverviewIncidents` and `renderOverviewIncidents`, InsightsCard is
--   `refreshInsightsSummary`.
-- Insights: the insights page. Of its overview tab, Trend is `computeTrend`, Cards is
--   `applyLiveToCards` and Figures is `updateKPIs`, with averages and percentages as exact fractions,
--   where the script has floating-point numbers; Alarms is the form of combined alarms, Events the
--   events tab with its filters and requests.
-- Sensors: the sensor view of the insights page. Selection is what is chosen and the requests of
--   `svFetchAndRenderChart`, View the handlers that change it, Series is `svSeriesValueAt`, Issues
--   is `svRenderIssues`, Readings is `svRenderMetricList` and `svUpdateLiveValues`,
--   Trends is `svRenderTrends`.
-- Monitor: the monitor page. Current is `applyCurrentMetrics`, Figures is `setKpiBar` and the
--   page's formats, Markers the markers of `zonesMarkersPlugin`, with tenths and exact fractions
--   for floating-point numbers.
-- Interfaces: the interfaces page. Registers is `wireRegTable` and `readRegTable`, ModbusTcp the
--   Modbus TCP panel with `buildMtcpPayload`, Rs232 and Rs485 their ports with `buildPayload` and
--   `buildRtuPayload`, Values the objects that are read off inputs, Save the three save buttons.
-- Charts: the pan and zoom of the charts, which the script has three times (`wheelPanZoom`,
--   `svPanZoomPlugin`, `esPanZoomPlugin`); the unit of time shrinks with each zoom, so that its
--   factors are exact.
-- Access: the access form of the system page.
-- Notifications: the notification settings of the system page. Channels is `ntRender` and `ntCollect`
--   for one channel, Page the page with all its buttons.
-- Connectivity: the connectivity page. Status is `_ifaceRealStatus`, Poll is `startConnectionPoll`
--   with its ticks, Fields and Form are `buildNetworkPayload` and `validateNetworkPayload`, Action
--   is `runNetworkAction`; Runtime is `updateRuntimeState`, Cellular is `updateCellularStatus`, Bytes
--   is `_fmtBytes`, whose loop runs over the units that are left.
-- Forwarding: the data-forwarding page. Cert is `fwInitCertWidget`, Profile and Form are what
--   `fwSave` reads off the form, Toggles are the switches of `fwToggle`, Store is `fwLoad`,
--   `fwShowForm`, `fwSave` and the delete button; Status is the texts of `fwRefreshStatus` and the
--   card of `refreshFwdStrip`, StatusCard its cards; Audit is `fwRefreshAudit`, Buffer is
--   `fwRefreshBuffer`, `_fwSparkline`, `_buildConfigNameMap` and `syncFwTabs`.
-- EdgeServer: the Edge Server page. Items, Endpoints and Buttons are its endpoints and topics,
--   Windows its windows of time, Alerts and Selection its alerts, Settings its listeners, storage,
--   tunnel and certificates.
--
-- Parameters stand for what the browser does: the reader's date format, `toUpperCase`, `Number`,
-- `parseInt`, `parseFloat`, dates and zones, and, where a time is compared with the samples of a series, its
-- floating-point distance. The value of a select is empty when no option has the assigned one. Elements that the templates have are taken to be on
-- their page.
--
-- Not modelled: the server and the gateway's services, which are other programs; the drawing of the
-- charts; the HTML around the values; of the sensor view, the requests of the stats and the trends; of
-- the monitor page, its history, tooltips and groups; the skeleton of the insights page's cards; the
-- rules and maintenance pages; of the Edge Server page, the status of its tunnel and its uploads.
pub mod Prelude
pub mod Format
pub mod Incidents
pub mod Network
pub mod Overview
pub mod Connectivity
pub mod Forwarding
pub mod EdgeServer
pub mod Insights
pub mod Interfaces
pub mod Notifications
pub mod Charts
pub mod Timeline
pub mod Sensors
pub mod Monitor
pub mod Access
