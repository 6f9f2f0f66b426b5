-- ===== src/Lib.antt =====
-- arigo, a Go client of the aria2 download manager over JSON-RPC on a WebSocket.
--
-- The parts, from the network up:
--   * internal/pkg/wsrpc/rwc.go turns the messages of a WebSocket into a byte stream: `Wsrpc`. The
--     struct ReadWriteCloser is the record of that name, Read, Write and Close are `read`, `write`
--     and `close`. gorilla/websocket is the record of functions `WebSocket`, on a world of any
--     type. What a property needs of it is a hypothesis: `IsReader` and `IsWriter` are what
--     io.Reader and io.Writer document. The two loops run on fuel: Read needs one more than the
--     length of its buffer, since every call of a reader without an error moves it on, and Write
--     needs two where the writer takes the whole buffer in one call or fails. `Wsrpc.Stream` has
--     many Reads in a row, over a connection of many messages (`IsSource`), and `Wsrpc.Returns` is
--     about the fuel of the two loops. In these each of Read, Write and Close runs alone, or with
--     a Close while the connection opens a reader or a writer. `Wsrpc.Threads` has the three at
--     the same time, as a step relation whose steps are the sections under the lock and the calls
--     of the connection: one Read and one Write, as rpc2 has them, and any number of Closes. What
--     was opened and ended is kept there as numbers, and no bytes; `Wsrpc.Threads.ReadRuns`,
--     `WriteRuns` and `Sequential` are about the functions `read`, `write` and `close` as runs of
--     these steps, where the world of the connection counts its calls (`IsCounted`).
--   * internal/pkg/jsonrpc/jsonrpc.go writes and reads the messages of JSON-RPC: `Codec`, with the
--     struct `message` in `Codec.Wire`. ReadHeader, ReadRequestBody, ReadResponseBody, WriteRequest
--     and WriteResponse have the same names in snake case. The decoder is the list of the values
--     that are still to be read, the encoder the list of those that were written. A nil pointer
--     that is dereferenced is the outcome `panic`. The text that fmt prints for a value is a
--     parameter. `Codec.Invariant` is about the table of the requests that wait for a
--     response, and `Codec.Responses` about the responses of a server.
--   * `Json` has the values of JSON, and how encoding/json decodes them into the types in use. `Tags`
--     has what encoding/json does with a struct: a `Member` per field has the key, the options of
--     the tag and the coding of the field's type, and one encoder and one decoder serve all structs.
--   * The structs of file.go, options.go, peer.go, server.go, session.go, stats.go, status.go, uri.go
--     and version.go are the records of `Structs`, each with its list of members and its zero value.
--     `Structs.Documented` and `Structs.StatusReply` describe the replies of aria2 apart from the
--     tags, with the keys of its manual, and `Structs.Options.Sent` what options mean that
--     are sent. The UNIXTime of status.go is the seconds and the nanoseconds of its time.
--   * pkg/aria2proto is `Proto`, exitstatus.go is `ExitStatus`. The String methods that the stringer
--     tool wrote, exitstatus_string.go and eventtype_string.go, cut a name out of one text by a table
--     of positions: `Stringer`, with the tables in `ExitStatus` and `Events.Names`, and in
--     `Stringer.Names` the lists of names they stand for. `Stringer.Checks` is about the lines of
--     the generated files that compile only with the constants as they are.
--   * events.go keeps the listeners: `Events`, with `Events.Registry` for what it promises. A
--     listener is a function to the list of its effects. Each operation holds the lock of the
--     target, so it is one step. `Events.Goroutines` has the listeners of a Dispatch as goroutines
--     that take turns, and `Events.Locking` the read and the write lock beside running listeners.
--   * client.go and multicall.go make the calls of aria2: `Client`, `Client.Methods` and
--     `Client.Multicall`. rpc2.Client is a parameter, a function from the name of a method and its
--     arguments to a reply. `Client.Arguments` and `Client.Metalink` are about what is sent and
--     what is made of the reply, and `Client.Secret` about the token in every call. `Base64` is
--     the encoding of the files that AddTorrent and AddMetalink send, and `Client.Uploads` and
--     `Client.SentOptions` about the files and the options that are sent.
--   * `Client.Notifications` has the handlers that NewClient registers and the two Subscribe
--     methods, `Client.Downloads` Download and Delete, and `Client.Gids` the methods of gid.go.
--     os.Remove is a parameter, and so is what happens to the world while Download waits.
--     `Client.Downloads.Process` has DownloadWithContext as a step relation, with its goroutine,
--     the channel downloadDone and the context, beside any change of the world; its module `Runs` is
--     about the process and the function `download_with_context` of `Client.Downloads`.
--   * Three modules join the parts. In `Client.Wire` a call goes through the codec to aria2 and
--     back, with what rpc2 does for it as a hypothesis. In `Client.Delivery` a notification goes
--     from the connection through the codec and the handler to the listeners, and `Client.Replies`
--     has the methods that return a struct on the replies of an aria2 as its manual has them.
--   * WaitForDownload of client.go is a step relation: `Client.Wait`, since it runs beside the
--     dispatches of its listeners. `Client.Wait.Listeners` has its listeners on the event target,
--     and `Client.Wait.Heard` what they send in each phase. `Client.Wait.Results` is about the
--     errors it returns, `Client.Wait.Measure` about the moves that it has left.
--   * DialContext, Dial, Run and Close of client.go are `Client.Dialling`: the stream, the codec and
--     the client are made one on the other, and closed through each other. The dialer of
--     gorilla/websocket is a parameter, and so are Run and Close of rpc2.Client; `IsRpcClose` is
--     what rpc2 does in Close. The goroutine that runs Run is returned, and not run.
--
-- `Base` passes on the library's names and has the Go map and the lists over the native numbers.
-- A uint and a uint64 are numbers below 2^64, an int is `ℤ`; a nil slice is `none`.
--
-- Not modelled: the bytes of a JSON text, and the goroutines of rpc2, which read the messages and call
-- the handlers. The float32 of one option is a parameter, as is the text that fmt prints.
pub mod Base
pub mod Proto
pub mod Json
pub mod Stringer
pub mod ExitStatus
pub mod Tags
pub mod Structs
pub mod Base64
pub mod Codec
pub mod Wsrpc
pub mod Events
pub mod Client
