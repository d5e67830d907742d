-- ===== src/Lib.antt =====
-- A model of this fork of Go's net/http: the routing of requests, the framing of messages,
-- redirects, conditional and range requests for files, the queue of requests that wait for a
-- connection, and the parts of its HTTP/2 code that keep state of their own.
--
-- A `ServeMux` (server.go) holds two data structures of the registered patterns (pattern.go): a
-- decision tree that finds the handler of a request (routing_tree.go), and an index that finds
-- the patterns with which a new one may conflict (routing_index.go). Registering a pattern asks
-- the index, compares the new pattern with what it returns, and writes both. The code and where
-- it is modelled:
--
--   Pattern: pattern.go, the data of patterns (`Segment`, `Pattern`) and their comparison
--     (`comparePaths` is `compare_paths`, `conflictsWith` is `conflicts_with`, and so on).
--     Pattern/Meaning and Pattern/Methods say what a pattern matches, without the tree;
--     Pattern/Compare, Pattern/Methods and Pattern/Relation are about the comparison, and so
--     are Pattern/Built, Pattern/Apart, Pattern/Only, Pattern/Means and Pattern/Conflict, which
--     build requests that two patterns share or do not share. Pattern/Parse is `parsePattern`,
--     with `validMethod` (request.go); Pattern/Parse/Steps, Pattern/Parse/Result and
--     Pattern/Parse/Texts are about it.
--   Paths: `pathUnescape` of pattern.go and `firstSegment` of routing_tree.go; Paths/Clean is
--     `cleanPath` of server.go.
--   Mapping: mapping.go, the slice or Go map behind the children of a node.
--   Routing: routing_tree.go. A `routingNode` is a `Tree`, whose nil is `nil`; a pattern and
--     its handler are a `Leaf`. Routing/Matching has `match`, `matchMethodAndPath`, `matchPath`
--     and `matchingMethods`. Routing/Fields, Routing/Insert, Routing/Multi, Routing/Table,
--     Routing/Total and Routing/Addition are about adding; Routing/Search, Routing/Best,
--     Routing/Requests, Routing/Precedence and Routing/Wildcards about matching.
--   Index: routing_index.go. Index/Slots, Index/Complete and Index/Known are about what it
--     keeps, what it does not leave out and what it hands out.
--   Mux: the state of `ServeMux` in server.go and `registerErr` after parsing; Mux/Handle is
--     the whole of it. Mux/Invariant and Mux/Register are about registration, Mux/Specific and
--     Mux/Dispatch about the pattern that a request finds, Mux/Exact about `exactMatch`.
--   Flow: `http2inflow` and `http2outflow` of h2_bundle.go, the windows of HTTP/2 flow control.
--   Frame: the header of HTTP/2 frames in h2_bundle.go, `startWrite`, `endWrite` and
--     `http2readFrameHeader`; Frame/Check is `checkFrameOrder`, Frame/Order and Frame/RoundTrip
--     are about them.
--   Headers: the header map of header.go, and `hasToken`; Headers/Lookup and Headers/Tokens are
--     about them.
--   Transfer: `readTransfer` of transfer.go, which finds the body of a message. Transfer/Length
--     is `parseTransferEncoding`, `parseContentLength` and `fixLength`; Transfer/Read is the
--     rest, with `fixTrailer`, `shouldClose` and `foreachHeaderElement` (server.go);
--     Transfer/Result its errors. Transfer/Framing says how a message is framed: by rules 1 and
--     3 to 7 of RFC 7230, section 3.3.3, where a `Transfer-Encoding` before HTTP/1.1 does not
--     count, and without rule 2, on responses to CONNECT; Transfer/Framing/Lengths,
--     Transfer/Framing/Size, Transfer/Framing/Trailer and Transfer/Framing/Rfc are about the
--     code. Transfer/Reader is `body`, the reader of what was found, Transfer/Reader/Trailer
--     its `readTrailer` and Transfer/Reader/Close its `Close`; Transfer/Reader/Complete and
--     Transfer/Reader/Once are about it. Transfer/Write is `newTransferWriter` and
--     Transfer/Write/Fields `writeHeader`; Transfer/Write/Numeral, Transfer/Write/Agree and
--     Transfer/Write/Sane are about them.
--   Client: redirects in client.go. Client/Policy is `redirectBehavior`,
--     `shouldCopyHeaderOnRedirect`, `isDomainOrSubdomain`, `refererForURL` and the copies of
--     headers; Client/Redirect is the loop of `do`. Client/Domains and Client/Hops are about
--     them.
--   Transport: Transport/Queue is `wantConnQueue` of transport.go; Transport/Fifo and
--     Transport/Calls are about it. Transport/Limit is `queueForDial` and `decConnsPerHost`,
--     the limit of connections for a host; Transport/Limit/Waits, Transport/Limit/Slots and
--     Transport/Limit/Bound are about it.
--   Jar: `shouldSend`, `domainMatch` and `pathMatch` of cookiejar/jar.go; Jar/Sends is about
--     them.
--   Files: fs.go. Files/Range is `parseRange`, Files/Content what `serveContent` makes of it,
--     Files/Etag the entity tags and the loops over them, Files/Conditions is
--     `checkPreconditions`. Files/InBounds, Files/Within, Files/Tags and Files/Precedence are
--     about them.
--   Base: numbers, lists, strings as lists of bytes, and Go's `int32` and `int64`.
--
-- Strings are lists of bytes, handlers are numbers. A write through a pointer into the tree is
-- a function from the tree before to the tree after, since every node has one parent. A panic
-- is a value of the result. Go maps are association lists in the order of insertion, so that an
-- iteration over a map is modelled in one of its orders. Every function is structurally
-- recursive but the loop of `parsePattern`, which runs on fuel: a round for every byte of the
-- path and one more, which is enough since every round takes a byte. `matchPath` is recursive
-- on the tree. The loops of `cleanFront` and `decConnsPerHost` have a round for every element
-- of the queue and one more, the loop over entity tags a round for every byte and one more; the
-- loop of `Client.do` takes its fuel as an argument, and ten rounds are enough for the check
-- that is the default.
--
-- The write of a frame is the bytes that are handed to the writer. Numbers of the `int32` of a
-- flow window and of the `int64` that `sumRangesSize` adds up wrap around where the code's do;
-- the length of a slice is taken to be less than the largest `int`. `url.PathUnescape` and
-- `path.Clean` are modelled as the standard library documents them. The runes of a string, the
-- letters and digits of Unicode and the token test of golang.org/x/net are parameters of the
-- parser. `CanonicalHeaderKey`, the tokens of a header in golang.org/x/net, `ParseTime`,
-- `net/url`, and the servers that answer a client are parameters where they are used.
-- `TrimString`, `FormatInt`, `strings.Split`, `strings.Cut`, `ParseInt` and `ParseUint` are
-- modelled as the standard library documents them. `bufio`, `textproto` and the connection
-- under a body are a parameter, `Wire`; `io.LimitedReader`, `io.Copy` and `io.CopyN` are
-- modelled as the standard library documents them, the copies on fuel, which a connection that
-- never ends may use up. A `CheckRedirect` is a parameter of a client that returns its error
-- and the request as it leaves it; what it may do to the earlier requests is not in the model.
-- The errors of seeking in a file are not in the model: it says which bytes are chosen.
--
-- Not modelled: the text of a conflict's description, the redirects of `ServeMux`, mutexes (the
-- model is of one call at a time), timeouts, the cookies of a client, the writes of bodies, and
-- the parts of the library named in no file: connections and dialling, the syntax and the
-- keeping of cookies, the rest of HTTP/2, CGI, the reverse proxy.
pub mod Base
pub mod Client
pub mod Files
pub mod Flow
pub mod Frame
pub mod Headers
pub mod Index
pub mod Jar
pub mod Mapping
pub mod Mux
pub mod Paths
pub mod Pattern
pub mod Routing
pub mod Transfer
pub mod Transport
