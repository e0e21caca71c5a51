-- ===== src/Lib.antt =====
-- gsm-system: the Go control plane of a GSM lab system, modelled part by part.
--
-- The program starts and stops a cell (OpenBTS with its transceiver, sipauthserve, smqueue and
-- Asterisk), keeps presets and the last start's profile on disk, collects the syslog lines of the
-- native programs in bounded files, shows the SMS of the current start, reads and changes the
-- radio configuration and the subscriber registry in sqlite databases, and serves all of it as an
-- HTTP API. Paths below are from the repository's root.
--
-- Files and code:
-- * Base and its children: bytes, numbers, lists, maps and JSON values as the Go standard library
--   treats them. A Go string or byte slice is a list of bytes (Text); `trim_space` knows the
--   Unicode spaces, `atoi` the bounds of a 64-bit int, `fold_name` the folding of JSON names. Regex
--   has regular expressions as data and a matcher that tries the alternatives in the order of the
--   regexp package, with its groups; Utf8 the runes of a text, hexadecimal text and Fields; Json.Read
--   what a decoder reads of an encoded value, whose strings have U+FFFD for invalid bytes.
-- * ProcessLog (internal/gsm/process_log.go): `processLog.Write`, which watches the output of
--   OpenBTS for the readiness marker, a tail of the output being carried over between writes; a
--   slice is its bytes with those up to its capacity, beyond which `data[:n]` panics.
-- * Logsink (internal/logsink): Store is `appendLog` with its rotation, Writer `capExistingLog`,
--   `NewWriter` and `Writer.Write`, Sink the choice of the file by the tag of a datagram.
-- * Gsm.Params (internal/gsm/gsm.go): the start parameters and their validation.
-- * Gsm.Presets (internal/gsm/presets.go, preset_defaults.go): the preset store; Codec is the JSON
--   document, Load the start of the store, Store the operations and the atomic replacement.
-- * Gsm.Sms (internal/gsm/sms_session.go): the cursors; Span is `readSMSSpan`, Session the
--   session's begin, commit, end and `ReadCurrentSMS`.
-- * Gsm.Manager (internal/gsm/manager.go): Status is `IsRunning`, Start `Start` with its deferred
--   rollback, Stop `Stop`, Profile `SaveProfile`, `LoadProfile` and `OverlayProfile`. Start uses
--   Params for the validation and Sms for the session.
-- * Gsm.Database (internal/gsm/db.go): `UpdateConfig` and the script of its transaction.
-- * Sql (internal/gsm/db.go, internal/subscriber/store.go): Quote is `sqliteEscape` and `quote`, Rows
--   reads the rows in the output of sqlite3.
-- * Subscriber (internal/subscriber/store.go): Snapshot joins the two Asterisk tables, Binding is
--   `Get`, `Bind` and `Unbind`.
-- * Telephony (internal/telephony/telephony.go): Concise is `ParseConcise`, History the choice of
--   the call records that are read.
-- * NetworkRule (internal/networkrule/networkrule.go): `Present` and `Ensure`.
-- * Parser (internal/parser): Native, Party, Notice and Delivery find the events in the log of
--   smqueue and Merge joins them, `ParseSmqueueLog` (sms.go); Tmsi is `ParseTMSIs`, Sgsn `ParseSGSN`
--   (ue.go).
-- * Process (internal/sysop/proc.go): `PIDs` and the liveness test, `killPID` and `KillAll`.
-- * Healthcheck (internal/healthcheck/healthcheck.go): what `Check` makes of the state of the cell.
-- * Configuration (internal/config/config.go): `Load` with its defaults and checks; Shapes says what
--   the checks mean.
-- * Api (internal/api): Page and Tail are `parsePageQuery`, `pageSlice` and `readTail` of
--   helpers.go; Route is `serveV1` with `allow` and `requireNoQuery`, which its Addresses and Exact
--   compare with the methods and paths of docs/api/openapi.yaml; Cell starts and stops the cell,
--   Writes changes the configuration, the presets, the numbers and the network rule, Send submits
--   a message, and Identity completes the identities of the messages that Parser reads from the
--   bindings that Subscriber lists (v1.go, presets.go). Their requests are taken with the body
--   decoded; Http is `decodeV1JSON`, with the body of the configuration patch, and the bearer token
--   in `chain` (http.go).
-- * Webui (internal/webui/handler.go): `serveAPI` with the test of a write's origin, in front of
--   `chain` and `serveV1`.
--
-- Conventions: an operation takes the state and returns the new one with its error; the results of
-- calls to the operating system, to other programs and to libraries outside the repository are
-- arguments (records named Faults or Env, or observations), so that a theorem holds whatever they
-- return. Mutexes make operations atomic, which is how they are modelled; where files change while
-- they are read, each phase has its own observation. Times and process identifiers are numbers.
-- Loops are structural recursions. Fuel is used in four places: `write_chunks` in Logsink.Writer
-- takes the length of the data, which is enough since no chunk is empty; `itoa` in Parser.Notice
-- takes the number itself, which has no more digits than that; `kill_pid` in Process takes the
-- rounds of its polling, of which timeout / 200 + 2 are proved to be enough; and `renamed` in
-- Gsm.Presets.Store counts the six attempts of the code. A file offset is a natural number; the
-- one subtraction of the source that can be negative, in `readSMSSpanOnce`, is written as an
-- addition on the other side.
--
-- Parameters stand for code that is not in the repository: `fold` for unicode.ToLower above 127,
-- `address` for net.ParseIP with its String, the record Library of Configuration for the parsing of
-- addresses, URLs, zones and paths, the record Iptables for the command; in Webui and Api.Http
-- `parse_url` for url.Parse, `equal_fold` for strings.EqualFold and `hash` for sha256.Sum256; in
-- Sql.Quote `read_literal` for sqlite's reading of a literal. A slice out of range, which panics in
-- Go, is `none` in Parser.Tmsi and ProcessLog.
--
-- Not modelled: the HTTP plumbing of internal/api and its handlers that only read; internal/sdr,
-- cmd/server and the assets of internal/webui; the SQL that sqlite3 runs beyond the quoting; the
-- parsing of CSV records and times; the decoding of YAML. The other components take their results
-- as arguments.
pub mod Base
pub mod ProcessLog
pub mod Logsink
pub mod Gsm
pub mod Api
pub mod Sql
pub mod Subscriber
pub mod Telephony
pub mod NetworkRule
pub mod Parser
pub mod Process
pub mod Healthcheck
pub mod Configuration
pub mod Webui
