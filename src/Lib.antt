-- ===== src/Lib.antt =====
-- Clients and data utilities for Vintage Story: a verification library of the Go module
-- github.com/AmadoMuerte/vintagestory-go.
--
-- The program. Package vshttp sends a request with bounded retries, reads a bounded body, classifies
-- statuses and transport faults, and decodes JSON; its errors carry a kind, and the packages above it
-- add their own sentinel to it. Package versions lists the game releases of the official catalog with
-- a cache of five minutes. Package moddb lists, searches and details mods with three caches. Package
-- modpack compares installed mods with a catalog, which it takes as an interface, and reports updates.
-- Package auth logs in and validates a session. Package news reads the official feed. Package modinfo
-- reads the metadata of a mod out of its archive. Package servers lists the public servers and shows the
-- details of one, both read from HTML pages. Packages auth, news, versions, moddb and servers call
-- vshttp; modpack and modinfo do not.
--
-- Which file models what:
--   Base: Go strings as lists of bytes and the functions of package strings on them, int64 as signed
--     numbers with their wrap-around, slices, sort.SliceStable as a stable insertion sort.
--   Vshttp/Errors, Vshttp/Message, Vshttp/Request: vshttp/vshttp.go, ErrorKind, APIError with Error, Is
--     and WithLegacy, errors.Is and errors.As on error trees, sanitizeURL.
--   Vshttp/Retry, Vshttp/Status, Vshttp/Do, Vshttp/Json: vshttp/vshttp.go and vshttp/do.go,
--     RetryPolicy.normalize, backoff, classify, statusError, CheckStatus, parseRetryAfter, readBody, Do,
--     DecodeJSON and FetchJSON. Do is a loop over rounds: a `Round` holds what one attempt meets (the
--     random number, the end of the delay, the reply, the error of the context), and the result holds
--     the number of requests sent and the delays slept.
--   Vshttp/Legacy, Versions/Errors, Moddb/Errors, Servers/Errors: the functions legacy of
--     versions/errors.go, moddb/errors.go and servers/errors.go, and apiStatusError; those of auth and
--     news stand with their clients.
--   Versions/Compare, Versions/Release, Versions/Catalog: versions/versions.go, splitVersion and
--     compareVersions, parseRelease, and Catalog with fetch and List. The state is the record Catalog; a
--     call of List takes its two readings of the clock and the rounds of its fetch.
--   Modpack/Semver, Modpack/Types, Modpack/Select, Modpack/Report: modpack/modpack.go,
--     normalizeSemver and CompareVersions, the selection of an update, Analyze and its summary.
--   Moddb/Types, Moddb/Mapping, Moddb/GameVersion: moddb/models.go and the parsing functions of
--     moddb/client.go.
--   Moddb/Search, Moddb/Answer, Moddb/Tags, Moddb/Client: moddb/client.go, the filters, order and
--     pages of Search, Search with enrichPage, ListTags, and the record Client with list,
--     listForGameVersion, Get and fetchDetails over its caches. Moddb/Client/Flights has list as many
--     goroutines call it: a World is the client, the flight of the catalog and where each caller is, and
--     an Event is one step of a caller or of the flight; a Log is what an observer notes who sees only
--     the events. Moddb/Answer/Arrivals has the results of the workers of enrichPage in the order in
--     which they arrive.
--   Auth: auth/client.go, auth/models.go and auth/errors.go, Login and Validate, where the server
--     answers by the form that is posted.
--   News/Types, News/Wording, News/Parser, News/Client: news/models.go, news/parser.go, news/client.go
--     and news/errors.go, the feed from its XML items, the tokens of a description, and List with the
--     fallback feed.
--   News/Redirects: news/client.go, the redirect policy of the default client under the loop of
--     http.Client.Do, whose fuel is the five requests that the policy allows.
--   Modinfo: modinfo/modinfo.go, Parse and ReadArchive.
--   Servers/Types, Servers/Tree, Servers/Patterns, Servers/Entry, Servers/Listing, Servers/Detail:
--     servers/models.go and servers/parser.go. A page is a tree of nodes; visit passes a state through
--     the nodes in document order, with the parent and the siblings of each, and the switches of
--     parseServer and parseServerDetail are on_element with a function for each case.
--   Servers/Location, Servers/Client: servers/client.go, detailURL and resolveURLs, and the record Client
--     with fetchHTML, List over its cache, and Get.
-- The modules named Tests, one in each of these, run the definitions on examples.
--
-- Bounds and termination. Every function is structurally recursive: the loop of Do runs on the attempts
-- that are left, itoa on one round more than its number, which each round divides by ten. Sums and
-- shifts that can leave an int64 are written with their wrap-around (backoff, the start of a page in
-- Search); a panic is `none` or `panicked`. Sizes of slices stay below the largest int64.
--
-- What is a parameter: the network, the clock, the context and the random numbers; json.Unmarshal,
-- http.ParseTime, time.ParseInLocation, strconv.ParseFloat and the parser of net/url, each as a
-- function from its text; the order in which Go walks a map, as the order of a list; and package
-- golang.org/x/mod/semver, an interface with the laws that its documentation gives for its order.
--
-- What is simplified or left out. Case maps and white space are those of ASCII text; other bytes are
-- left alone. Headers, the default HTTP transport and its time limits are not modelled. The lookups of
-- enrichPage run in the order of the items (Moddb/Answer/Arrivals has their results in another order), and
-- in Moddb/Client a call that shares a flight of singleflight with others is taken to start it
-- (Moddb/Client/Flights has the callers of list on one flight). A rune of a summary is found by its
-- bytes, as in valid UTF-8. The XML reader and the HTML tokenizer of news, html.Parse, html.Render and
-- the resolution of references of servers, the zip reader and gjson of modinfo are parameters. The
-- address of a server's page is that of an endpoint that is absolute and whose path has the standard
-- encoding.
pub mod Base
pub mod Vshttp
pub mod Modpack
pub mod Versions
pub mod Moddb
pub mod Auth
pub mod News
pub mod Modinfo
pub mod Servers
