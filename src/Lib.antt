-- ===== src/Lib.antt =====
-- Verification library of dsh-gateway: an App that runs a local CLIProxyAPI (CPA) gateway, logs
-- accounts in, configures models, and records usage analytics on the device.
--
-- Parts and how they interact:
--   * packages/analytics: the collector (pipeline/collector.ts) pops usage records from the CPA
--     queue, the projector (pipeline/usage-projector.ts) turns each into a bounded observation or
--     a dead letter by an allowlist of fields, with identifiers hashed by the installation's key
--     (pipeline/hashing.ts), and the store keeps them.
--     The states of accounts and quotas are projected alike (pipeline/management-projectors.ts).
--     Costs are estimated by rules
--     (pipeline/pricing.ts).
--   * packages/runtime/src/index.ts: GatewayRuntime starts, watches and stops the CPA process, or an
--     external endpoint. A managed start takes the lock file of RuntimeOwnerLock, probes the port with
--     probeCpaEndpoint, spawns the process and waits until the probe finds it ready.
--   * packages/gateway/src/host/oauth: the device login runs a CPA subprocess, reads its output,
--     and keeps at most one operation (manager.ts).
--   * packages/gateway/src/host/provider: the list of models that CPA serves is checked and
--     normalised (models.ts), made a route of one provider (profile.ts) and
--     planned as a change of the settings (settings.ts) before it reaches the App's model provider.
--
-- Files:
--   * Prelude: lists, texts as UTF-16 code units, and Outcome, the result of code that may throw.
--   * Js: JSON-like JavaScript values. Numbers are naturals, negative integers, fractions and
--     non-finite ones; `get` is a property read, undefined where the key is absent. Inherited
--     properties, getters and cycles are not in the model.
--   * Analytics.Contracts: records of packages/analytics/src/contracts.ts.
--   * Analytics.Pricing: pricing.ts. Rules (validateRule), Matcher (PricingRuleMatcher,
--     validateOverlaps), Estimate (estimatePricing). BigInt products are naturals; the sum of
--     numbers rounds by a parameter `fl` that is exact up to Number.MAX_SAFE_INTEGER.
--   * Analytics.Hashing: hashing.ts. The functions of node:crypto and JSON.stringify are the
--     parameter Crypto.
--   * Analytics.Usage: usage-projector.ts. Read has the readers of fields, Project has
--     projectCpaUsage; Date.parse and Date.now are parameters.
--   * Analytics.Collector: collector.ts. The steps of `executePoll` are its segments between
--     awaits, the phase of the poll in flight says where it stands; the projector is a parameter.
--   * Analytics.Management: pipeline/management-projectors.ts. The parent has projectAccountHealth
--     and the readers, Quota has projectQuota.
--   * Analytics.Storage: storage/validation.ts. The parent has the checks of fields;
--     Observations has the validators of request, account health and dead-letter observations,
--     Quotas those of quota observations and of the filters of a query, Rules those of pricing rules.
--   * Analytics.Config: config.ts, resolveAnalyticsConfig.
--   * Gateway.Oauth: oauth/types.ts and oauth/manager.ts. Operation has the handlers of one
--     operation, Manager has start, status, cancel and dispose. What the parser makes of the output is
--     an input of the handlers, and so are the clock and the process. Parser is oauth/parser.ts with
--     feed and finish; Lines has its recognisers of addresses and codes, Times those of times and
--     final states. The regular expressions are functions on the rest of a line. Callback is
--     oauth/callback.ts.
--   * Runtime: packages/runtime/src/index.ts. Types has the states and the table of transitions,
--     Lifecycle.State the state, Lifecycle the segments of the methods of GatewayRuntime between two
--     awaits, Lifecycle.Steps its events, those of `install` included; Lock the objects of
--     RuntimeOwnerLock on one file, Probe probeCpaEndpoint. The file system, fetch, URL, the clock and
--     the process are inputs. `restart` is a stop and then a start.
--   * Gateway.Provider.Models: provider/models.ts, normalizeCpaModels. The map is a list in
--     insertion order, the sort a stable insertion sort.
--   * Gateway.Provider.Profile: provider/profile.ts, createCpaProviderRoute.
--   * Gateway.Provider.Settings: provider/settings.ts, planCpaProviderSettings. Objects are their
--     fields, with distinct keys; Json is about jsonEqual, Leaves about the operations, Plan about the
--     whole.
--
-- Bounds and fuel: every loop is structural recursion on a list or a value, no definition uses
-- fuel. Limits are the source's: Number.MAX_SAFE_INTEGER is 2^53 - 1.
--
-- Not modelled: the rest of the storage (SQL through node:sqlite and its worker) and the analytics
-- service, the files that the runtime installs and writes, a second installation in flight, a stop or
-- dispose of a runtime that is called while a stop is in flight and the state is no longer stopping,
-- nor stopped or disabled, the HTTP client and the gateway service, the user interface, and the
-- build; `recordRaw` of the manager, whose tail nothing reads.
pub mod Prelude
pub mod Js
pub mod Analytics
pub mod Runtime
pub mod Gateway
