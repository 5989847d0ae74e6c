-- ===== src/Lib.antt =====
-- ran is a honeypot: traps listen for protocols, the sensor (internal/alert/sensor.go) classifies
-- their sessions, and the alerter (internal/alert/crowdsec.go) reports sources through a ban filter,
-- a cooldown filter and an offender table, which in turn refuses sources at accept time.
--
-- Parts, and the files that model them:
-- - Base: Booleans, lists, byte slices and association lists; `none` stands for a run-time panic.
-- - Fifo: the map and linked list that the bounded tables of internal/alert share. An element of
--   the list is a number that is never used twice, so `list.Element` pointers become numbers.
-- - Alert/Class: `Class`, `SessionInfo`, `Classify`, `MaxClass` of internal/alert/alerter.go.
-- - Alert/Cooldown: `cooldownFilter` of internal/alert/cooldown.go; `take_slot` is the end of `allow`.
-- - Alert/Scan: `scanTracker` of internal/alert/scan.go; Scan/Entry is what `TouchPort` does to one
--   source.
-- - Alert/Offenders: `offenderTable` of internal/alert/offenders.go. Table has the state, windows and
--   eviction, Operations has `accepted`, `windowFor` and `shunned`, Upkeep has `revert`, `rejected`,
--   `sweep` and `flush`. The summaries to be logged are returned.
-- - Alert/Probes: `probeLog` of internal/alert/sensor.go; the lines written are a list.
-- - Alert/Sensor: `Alert`, `SessionEnd`, `Ignored` and `Shunned` of internal/alert/sensor.go; the
--   events handed to the sink are returned.
-- - Alert/Pipeline: `Submit` and `failBatch` of internal/alert/crowdsec.go; the channel is a list
--   with a capacity.
-- - Alert/Meta: `eventMeta`, `sanitizeMeta` and `boundMeta` of internal/alert/crowdsec.go.
-- - Alert/Worker: `batchWorker`, `send`, `hold` and `flushWithin` of internal/alert/crowdsec.go; the
--   clock, the posts, the logins and the pauses are a record that the definitions take. Worker/Batch
--   collects alerts into batches.
-- - Alert/Netip: Go's net/netip as a record that the definitions take as a parameter, with
--   `normalizeIP`, `MatchesPrefixes` (internal/config/config.go) and `parseBannableIP`.
-- - Text: UTF-8 and the functions of Go's package strings; the larger tables of package unicode are a
--   record that the definitions take.
-- - Trap/Session and Trap/Redact: the session of internal/trap/trap.go, its log lines, its counters and
--   its reports to the sensor, and how secrets are kept out of the log.
-- - Trap/Pacing: the rejection log, the accept back-off and the delays of internal/trap/trap.go.
-- - Trap/Server: admission, end and stop of internal/trap/tcpserver.go, for one server that has the
--   limiter to itself. Server/Shared has the servers of all traps at the one limiter that cmd/ran/run.go
--   makes, with its other users, the UDP and HTTP traps, as steps that release each slot they acquire
--   once.
-- - Trap/LineReader, Trap/Proxy: internal/trap/linereader.go and proxyproto.go.
-- - Trap/Limiter: internal/trap/limiter.go. Trap/Telnet: internal/trap/telnetiac.go.
-- - Trap/Ber: internal/trap/ber.go and `readTLV`. Trap/Snmp, Dns, Ntp, Modbus, Mqtt, S7comm, Minecraft:
--   the parsers, and handlers but for Minecraft's, of the file of the same name in internal/trap.
-- - Trap/Dialog: what the handlers of the following traps have in common, the writes and the operations
--   on the session as a list, and the loop over the lines of a scanner.
-- - Trap/Login: `handle` of internal/trap/ftp.go and pop3.go. Trap/Imap: of imap.go and memcached.go.
--   Trap/Irc: of irc.go. Trap/Smtp: smtp.go; the three states of its loop are the scans of
--   `handleAuthLogin`.
-- - Trap/Redis: internal/trap/redis.go. Trap/Socks5: socks5.go, vnc.go and rdp.go.
-- - Trap/Ldap: internal/trap/ldap.go, and `berInteger` of ber.go on the words of 64 bits.
-- - Trap/Tls: internal/trap/tlsfp.go, the parser of a ClientHello. Tls/Ja has `ja3` and `ja4`, over any
--   digests, and Tls/Capture the capture of the first record.
-- - Trap/RateLimit: internal/trap/ratelimit.go.
-- - Config: internal/config/config.go. Config/Listen has `checkListenConflicts`, Config/Ignore
--   `ParseIgnoreList` and `IsIgnored`, Config/Env the readers of `envReader`.
-- - Examples: concrete runs.
--
-- Conventions. Times and durations are numbers of the clock's unit that are not negative; every
-- operation takes the clock's reading where the source calls the clock, and clock readings are not
-- assumed to grow; a duration that would be negative is cut to 0, but in the summary of a shun window. Operations run under the source's locks, so a sequence of calls is a sequence of
-- whole operations. A Go map is an association list in which each key stands once. Integers of a
-- width keep their wrap-around where it can be reached. A connection is the bytes that the peer
-- sends until it closes; the loops of the Modbus and S7 sessions take whether each write fails as a
-- function. The tokens of the rate limiter are counted in parts of 10^-9, so that a nanosecond
-- brings a whole number of them; the source counts in float64. The scanner of package bufio, base64,
-- the digests, time.ParseDuration and net.SplitHostPort are parameters.
--
-- Bounds and fuel. The loops that take the front of a list away have as much fuel as there are
-- elements. The telnet loop and the loop over DNS labels have one more than the input's length; a Modbus
-- session needs more than the bytes sent, since each request takes seven or more. The line reader has
-- one more than the bytes that come. A Minecraft integer has five bytes, an int64 in BER nine at most.
-- The Redis and the LDAP loop have one turn more than there are bytes, since each turn takes a byte or
-- ends. The loop over the server names of a hello has the length of their list, those over protocols
-- and extensions the room left.
--
-- Not modelled: sockets, goroutines, HTTP, metrics and log writers, the other traps, `Load` and the
-- checks of addresses in the configuration, negative numbers among Minecraft's integers, the JSON of an
-- alert, the refresh of the LAPI token, the listeners of internal/trap/trap.go, the listener of PROXY
-- connections, and the record of a TLS fingerprint, which stands on the sanitizer of the HTTP traps.
pub mod Base
pub mod Fifo
pub mod Text
pub mod Config
pub mod Alert
pub mod Trap
pub mod Examples
