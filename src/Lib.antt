-- ===== src/Lib.antt =====
-- fingered, a Finger daemon in Go.
-- `main` is the helper that becomes a script, or it loads the configuration, opens the log files and
-- runs a server with one or two listeners. A listener accepts connections. For each of them the server
-- resolves who the client is (behind a trusted proxy, by a PROXY header), reads one line within a
-- limit, parses it into a request, finds the content in a file or by a script, puts the header, the
-- footer and the credits around it, sends one response and logs it.
--
-- Main, Main/*: cmd/fingered/main.go, and New, Close and the loop of runListener of
--   internal/server/server.go. Status has the exit status, Accept the loop over what Accept yields.
-- Run, Run/*: Run of the same file, as a step relation on its listeners, the channel of errors, the
--   context and the wait group. Invariant and Preserved have the invariant, Progress the bound on steps.
-- Goroutine, Daemon, Daemon/*: Run and runListener together with the goroutines of the connections.
--   Goroutine has the moves of a listener and the writes of a connection, which is seen by its log
--   entries, Daemon the step relation on all of them. Calm and Refined set it against Run; Stops,
--   Progress and Ends are about its end, where a step of the daemon itself is one that waits for no
--   connection and no error of the network. Effects and Journal are about the log, Graceful and Complete
--   about a stop that waits, Abandoned about a failure that does not.
-- Config, Config/*: internal/config/config.go. Config is the struct, Apply the function applyValue and
--   its parsers, Validate the checks in their order, Load the loop over the lines. Settings and Loaded
--   set the loop against a description in two phases, Valid the checks against a record.
-- Token, Request, Reader and their children: internal/server/request.go. Token has parseFlag and
--   parseTarget, whose names Token/Name describes by a grammar, Request the parsers of a line and the
--   canonical form, Reader readLine and discardLine.
-- Proxy, Proxy/*: parseProxyLine, parseProxyAddr, parseProxyPort, isPublicUnicastIP and
--   isTrustedProxy of internal/server/server.go.
-- Body, Body/*: sanitizeBody and joinSegments of the same file.
-- Content, Content/*: cappedBuffer, openRegularReadNoFollow, openRegularExecNoFollow, loadStatic,
--   runCGI, resolveMainContent, resolveTemplate and buildValidResponse of the same file. Confined and
--   Isolated are about the paths of a request, Started about the helper that runCGI starts, Served
--   and Outcomes about which content is served.
-- Connection, Connection/*: prepareConn, shouldSilentlyClose, serveConn and peerAddr of the same file.
-- Helper, Helper/Order: internal/server/cgi_helper_linux.go, whose system calls are values.
-- Log, Log/*: internal/server/logger.go. Field has sanitizeLog and trimLogField, Line the two formats,
--   Open the files, Session what one connection leaves in both logs, with writeAndLog, logContentError
--   and logTemplateSkip of server.go; Shorten, Clean, Record, Resources and Answered have the proofs.
-- Probe, Probe/Echo: debug/cgi_probe.go, the script that tests the jail, and its echo through runCGI.
-- Base, Utf8, Text, Number, Addr, FilePath: lists, tests and integers, and what the program uses of
--   Go's unicode/utf8, strings, strconv, net/netip and path/filepath.
-- Tests: runs of the definitions, and the theorems at concrete inputs.
--
-- A string or a byte slice is a list of bytes. A Go int and a duration are 64-bit integers: a sum or a
-- product that can leave their range is wrapped around by add64 and mul64. A reader is the bytes that
-- will arrive and the way they end. An error is a value, and what is logged or sent is a list of
-- effects. The loops go over bytes, runes, tokens, lines, parts or events, but for those that take fuel:
-- the loop of trimLogField has the length of its text, and each round drops a byte or more; the decimal
-- text of a number has 20 rounds and the hexadecimal one 16, which is enough for 64 bits.
--
-- Parameters: the answers of the system calls, the process of a script with what it writes, the TLS
-- handshake and the certificates, the deadlines, the clock, the hostname and the process id, the text
-- of an address, the host in a remote address, the parsed flags, and the lines that bufio.Scanner yields.
-- What net.Listen and Accept answer to a listener of the daemon, and when, is any of their results,
-- and so is what the system answers each connection.
-- Not modelled: the bytes in the sockets, the length of the sleep behind a temporary error, how a
-- signal reaches the context, and the scripts that run the probes.
pub mod Base
pub mod Utf8
pub mod Text
pub mod Number
pub mod Addr
pub mod FilePath
pub mod Config
pub mod Content
pub mod Proxy
pub mod Body
pub mod Reader
pub mod Token
pub mod Request
pub mod Connection
pub mod Log
pub mod Helper
pub mod Probe
pub mod Run
pub mod Main
pub mod Goroutine
pub mod Daemon
pub mod Tests
