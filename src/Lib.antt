-- ===== src/Lib.antt =====
-- The token saver plugin: a plugin of a proxy that shortens the bodies of requests to language
-- models, by local stages and by the local service Headroom, and gives back the original body when
-- anything goes wrong.
--
-- Its parts, and the files that model them:
--   Headroom.Circuit    internal/headroom/client.go, `circuitBreaker`: `state`, `begin`, `cancel` and
--                       `finish`. Headroom.Calls has the calls that run at once as a step relation
--                       over these methods and the client's one-slot semaphore.
--   Headroom.Client     the same file, `Compress`, `Probe` and what they call, one call at a time.
--   Headroom.Adapter    internal/headroom/adapter.go: the projection of chat bodies in Chat, `validate`
--                       in Validation, `rewrite` and `Apply` in Application.
--   Headroom.Endpoint   internal/headroom/client.go, `fixedEndpoint` and the checks of `newClient`.
--   Saver.Dedupe        internal/saver/dedupe.go: the cache of results. `do_begin` and `do_finish` are
--                       the two locked parts of `Do`, and Saver.Dedupe.Sharing interleaves them.
--   Saver.Service       internal/saver/pipeline.go: the configuration generations. `reconfigure`,
--                       `acquire`, `release`, `acquire_status`, `release_status_state` and `close` are
--                       the functions of these names; Saver.Service.Lifecycle puts them in any order.
--   Saver.Shape         the same file, `validProviderShape` and the checks under it.
--   Saver.Pipeline      the same file, `runLocalStage`, `runHeadroomStage` and `validStage`;
--                       Saver.Pipeline.Normalize has `Normalize` from the configuration of the request's
--                       generation on, and Saver.Served the whole of it.
--   Saver.Recording     the same file, `record` and `recordAllBypassed`.
--   Metrics             internal/metrics/metrics.go: the counters by stage and by route;
--                       Metrics.Generations has the running requests by generation.
--   Config              internal/config/config.go: the settings; Config.Fields has `Parse` and the
--                       decoding of each field, Config.Store the published configuration.
--   Abi                 internal/abi/buffer.go and internal/abi/envelope.go: the buffers that the host
--                       owns, the calls and the shutdown.
--   Saver.Transition    the same file, `validRTKTransition`; Saver.Pipeline.Bodies has what it and the
--                       comparison with `prompt.Inject` leave of the freedom of a stage.
--   Saver.Key           internal/saver/dedupe.go, `dedupeKey`: the bytes that are hashed.
--   Protocol            internal/protocol/payload.go: the table of routes. Protocol.Payload.Views has
--                       `View` with the walk for each target, Protocol.Payload.Rewrite `Rewrite`.
--   Prompt              internal/prompt/inject.go, `Inject`, with the shapes in Prompt.Shapes and the
--                       insertion of bytes in Prompt.Insert; internal/prompt/caveman.go and
--                       internal/prompt/ponytail.go, the texts, in Prompt.Faces.
--   Rtk                 internal/rtk/filter.go: the guards around a filter, and `Apply` in Rtk.Apply;
--                       internal/rtk/detect.go in Rtk.Detect; internal/rtk/filters: the filters
--                       `SmartTruncate`, `ReadNumbered`, `DedupLog`, `Tree`, `GitDiff`, `BuildOutput`,
--                       and the resolution of names in Rtk.Registry.
--   Json                the calls of gjson, and the text that json.Marshal makes of a string.
--   Text                Go strings as lists of bytes, with the functions of strings, bytes and strconv
--                       that the program calls.
--   Common              names and lemmas that the others share. Tests has concrete inputs.
--
-- The host calls the runtime of Abi. It parses the settings with Config and hands them to
-- Saver.Service, which makes a generation of them; a request holds a generation while Saver.Pipeline
-- runs its stages, of which the first two go through Saver.Dedupe and the second asks Headroom.Client;
-- what comes out is counted in Metrics.
--
-- Code that runs at once is modelled as an order of its critical sections, since each takes one mutex.
-- A time is a number of nanoseconds, 0 for the zero time. A uint64 that the code increments keeps its
-- `% 2 ^ 64`; the theorems that need it say that no overflow happens. A Go panic that is recovered is a
-- value of the model, except one within the HTTP exchange of `Compress`, which is assumed to return,
-- and one of the clock outside the cached work. Evictions run on fuel, the number of entries, of which
-- every round removes one; `trim_by`, `escape_from` and `decimal_from` run on fuel, the length of the
-- text and the number itself; `digits_from` on the 20 bytes that `indexString` has, enough for every
-- int.
--
-- What gopkg.in/yaml.v3, net/url, net/http, encoding/json and gjson answer, SHA-256 sums and regular
-- expressions are arguments; json.Marshal of a string is written out. The stage functions that the
-- pipeline's `Options` inject are arguments as well, so what holds of a stage's body holds because of
-- the checks. A map that Go walks in any order is a list in any order.
-- Not modelled are the adapter's projections of the formats other than chat, which are arguments of
-- `apply`, and its nil receiver; the filters `Grep`, `Find`, `SearchList`, `LS`, `GitStatus` and
-- `GitLog`; the management pages, the cgo entry points and the tools beside the plugin.
pub mod Common
pub mod Text
pub mod Config
pub mod Headroom
pub mod Metrics
pub mod Saver
pub mod Json
pub mod Protocol
pub mod Prompt
pub mod Abi
pub mod Rtk
pub mod Tests
