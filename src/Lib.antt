-- ===== src/Lib.antt =====
-- Nexer is a TCP proxy that starts the applications behind it on demand. This library models parts
-- of it as functions and proves what makes them correct. Paths are those of the repository.
--
-- Parts and files:
--
--   Url: `src/url.cc` and `include/url.h`. `parse_url` is `ParseUrl`, composed of one function
--   for each part of a URL; Url.Query has `ParseQueryString`, a machine with two states, and
--   Url.Decode has `DecodeUrlComponent`. A C string is the list of its bytes. Url.Print and
--   Url.Parts hold the proofs on `ParseUrl`, Url.Query.Split and Url.Decode.Encodes those on the
--   other two.
--
--   Forwarder: `src/tcp_forwarder.cc` and `include/tcp_forwarder.h`. Forwarder.State has the two
--   clients with the two strings of each and the pointers `data_in` and `data_out` into them,
--   which alias where `SetOutgoing` is given the incoming client. Each callback that `Init`
--   registers and `SetOutgoing` is a function from a state to a state and the calls made of the
--   clients; `step` takes one event, and `none` is a null dereference or a use after `delete
--   this`. What the event loop answers within a callback is part of the event. `Handle::Close` of
--   `src/handle.cc` and the failing case of `TcpClient::Write` of `src/tcp_client.cc` are
--   included. Forwarder.Relay has the invariant between two handles, Delivery, Completion and
--   Closing show that each callback keeps it, and History puts whole runs together; Echo is the
--   case of one handle on both sides.
--
--   Config: `src/config.cc` and `include/config.h`. Config.Types has the data; an app pointer is
--   a place in the list of all apps. Config.Document is the interface to the JSON library (jsini,
--   not part of the repository): a record of a document's observers, with the law that a document
--   is finite. Config and Config.Parser have `ConfigParser`, one function for each overload of
--   `Parse`, Config.Registry has `GetApp`. Apps nest as preambles, so `parse_app` takes fuel;
--   Config.Fuel shows that fuel above the document's depth changes nothing. Config.Ending has the
--   destructor. `Logger::ParseLevel` of `src/logger.cc` is included.
--
--   Buffer: `include/string_buffer.h`. The block is the list of its bytes, and `none` is a write
--   out of it. Buffer.Holds says that a buffer holds a text, and Buffer.Contents what each
--   operation makes of that text; Buffer.Memory has the writes, and Buffer.Text the functions
--   that take a C string. Buffer.Printf has the loop of `Printf` on fuel for its rounds, which
--   Buffer.Rounds takes apart and Buffer.Printing shows to be enough; Buffer.Files has `Load` and
--   `Save`.
--
--   Http: the callbacks of `http::incoming::Message` in `src/http_message.cc` and
--   `include/http_message.h`, which put a request together from the pieces that llhttp (not part
--   of the repository) delivers. Http.Chunks goes through the pieces of each part, Http.Requests
--   through whole requests; Http.Response has the response that `End` writes. The URL is parsed
--   by `parse_url` of Url.
--
--   Log: `src/logger.cc` and `include/logger.h`; Log.Gates is about which messages pass,
--   Log.Lines about what is written. The levels are those of Config.Types.
--
--   Pool: `include/memory_pool.h`, over a heap that gives the header of the block at each
--   address; Pool.Faults is about the header that `malloc` leaves. Segments and Lists have linked
--   lists in the heap, Taking, Giving and Freeing what a call makes of the two lists, History
--   whole runs, Wild the `prev` that is never set, and Ending the destructor.
--
--   Timer: `src/timer.cc` and `include/timer.h`; Timer.Elapsed compares the elapsed time with the
--   clock.
--
--   Tcp: `src/tcp_client.cc` and `include/tcp_client.h`, each callback with the listeners that it
--   invokes. Tcp.Dial is `TcpClient::Connect` with its timer, its retries and its timeout, one
--   step for each callback of the event loop; Tcp.Dial.Invariant says which callback may come
--   next and what then holds, Ticks, Attempts and Steps prove it kept, and Answers is about whole
--   attempts.
--
--   Http.Server has the connections of `src/http_server.cc`, and Http.Server.Sessions requests
--   that follow each other on one.
--
--   Http.Client has `Get` of `src/http_client.cc`, given the pieces that libcurl (not part of the
--   repository) passes to the two callbacks; Http.Client.Transfer is about what they leave.
--
--   Handle: `src/handle.cc` and `include/handle.h`. Handle.Listeners is
--   `include/function_list.h`, a list whose nodes have numbers; Handle.Life has a handle's whole
--   life.
--
--   Process: `src/process.cc` and `include/process.h`. Process.Start is about the arguments,
--   Process.Life has the calls of a process's life in any order that libuv allows, Process.Steps
--   what one of them reports, and Process.Ends that the end is reported once.
--
--   Manager: `src/process_manager.cc`, `include/process_manager.h` and `include/then.h`. A
--   function that the code passes on is data, and so is a call of it; Manager.Steps has what each
--   call does and the calls that it makes, and `run` takes them as the code does, each with all
--   that it makes before the next. The start of a process is that of Process. Theorems give the
--   fuel that is enough. Clear, Preamble, Checks, Launch and Queue have the pieces, Serve,
--   Checked, Stuck and Killed the whole runs, and Text the names for the log.
--
--   Proxy: `src/tcp_proxy.cc` and `include/tcp_proxy.h`, one step for each listener;
--   Proxy.Outgoing is about what the listeners do to others, and Proxy.Settled about where
--   outgoing connections go.
--
--   Server: what `src/tcp_server.cc` and `src/udp_server.cc` do once they listen.
--   Server.Connections is about the clients that are accepted, and Server.Datagrams about the
--   bytes of a UDP server's object, with Server.Patches for writes into it.
--
--   Loop: `src/event_loop.cc` and `src/async_work.cc`; Loop.Closing is about the handles of a
--   loop that is closed.
--
--   System: a proxy together with its process manager, as `CheckUpstreamProcess` connects them:
--   what the one requires are calls of the other, and what that calls back are events of the
--   first. What happens in both is one list, in its order. System.Connects follows clients
--   through both.
--
--   Nexer: `src/nexer.cc` and the `Listen` of `src/tcp_server.cc` and `src/udp_server.cc`;
--   Nexer.Start is about which servers run and are kept, and Nexer.Serving about the loop's
--   requests and the closing.
--
--   Prelude has the numbers, lists, options and tests that all parts share.
--
-- Not modelled: the messages that the parts log; the event loop (libuv), the HTTP parser (llhttp),
-- the JSON reader (jsini) and the HTTP transfers (libcurl), which are outside the repository and
-- whose answers are arguments; the options that the HTTP client sets; the destructors but those of
-- the memory pool and the configuration; main.
pub mod Prelude
pub mod Url
pub mod Forwarder
pub mod Config
pub mod Buffer
pub mod Http
pub mod Log
pub mod Pool
pub mod Handle
pub mod Timer
pub mod Tcp
pub mod Process
pub mod Loop
pub mod Manager
pub mod Proxy
pub mod Nexer
pub mod Server
pub mod System
