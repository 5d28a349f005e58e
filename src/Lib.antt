-- ===== src/Lib.antt =====
-- up2date-cpp: a client of the update server hawkBit.
--
-- The repository holds three libraries. modules/ has a URI parser and an HTTP client with one
-- implementation for Unix (on cpp-httplib) and one for Windows. ddi/ is the hawkBit client: a
-- builder makes a client, whose `run` polls the server, follows the action that the server names,
-- calls the user's handlers and sends their answers back; a 401 makes it ask the user for new
-- credentials and repeat the request once. dps/ fetches credentials from a provisioning service.
--
-- Where the code is modelled:
--   Base, Base/Int, Base/Lists   shared names; signed integers; the range of a 32-bit `int`
--   Text, Text/Scan, Text/Order  std::string as a list of bytes; numbers in text; operator<
--   Text/Printed                 printed numbers are read back
--   Outcome                      httpclient::Error (modules/include/httpclient_def.h), the
--                                exceptions of ddi/include/ddi/hawkbit_exceptions.hpp and
--                                dps/include/ritms_exceptions.hpp, results
--   Multimap                     std::multimap, the headers of a request
--   Uri, Uri/Match               modules/src/uriparse.cpp: `from_string` is URI::fromString,
--                                `regex_match` is the regular expression, group by group
--   Uri/Compose, Uri/Sound       texts put together from the parts of a URI
--   Json                         what the client uses of RapidJSON, as an interface
--   Ddi/Endpoint                 hawkbitEndpointFrom of ddi/src/utils.cpp
--   Ddi/Payload                  ddi/src/acions_impl.cpp and ddi/src/actions_impl.hpp: Polling is
--                                PollingData_, Cancel is CancelAction_, Deployment is
--                                DeploymentBase_ with Chunk_ and Artifact_
--   Ddi/Response                 ddi/src/response_impl.cpp and ddi/src/hawkbit_response.cpp; Added: the
--                                calls of addData
--   Ddi/Feedback                 fillResponseDocument, formatFeedbackPath, formatDownloadPath of
--                                ddi/src/ddi_client_impl.cpp; Reads, Config: what is read in the
--                                documents
--   Ddi/State                    the fields of HawkbitCommunicationClient, AuthRestoreHandler_,
--                                stop, requestToPoll
--   Ddi/Builder                  ddi/src/ddi_client_builder.cpp
--   Ddi/Session                  Monad: the environment, the history, exceptions; Requests:
--                                newHttpClient, checkHttpCode, wrappedRequest, retryHandler,
--                                downloadTo, getBody, downloadWithReceiver; Keeps: properties of
--                                a session that every action keeps; Retry, Exchange: what is
--                                sent; Sound:
--                                what runs over the Unix client
--   Ddi/Poll/Protocol            what a poll does, call by call; Ddi/Poll/Deploys: a poll that
--                                names a deployment; Keeps, Frame, Exclusive: what polls
--                                leave as it was
--   Ddi/Poll                     doPoll, followConfigData, followCancelAction,
--                                followDeploymentBase; Loop: run; Loop/Stops, Loop/Stopping,
--                                Loop/Sleeps: when it ends and sleeps; Loop/Lives: its calls
--   Dps, Dps/Answers             dps/src: ProvisioningClient_impl and its builder,
--                                TokenExchanger_impl; Dps/Failures: their exceptions
--   Unix                         modules/src/unix/httpclient_impl.cpp: toHttpLibResult, and the
--                                loading of a key pair; Chain and Results: what these come to;
--                                Client: the methods; Agrees: the same on Windows
--   Http                         modules/include/httpclient.hpp: the handlers of a user
--   Win/Api                      the calls of Windows, the resources that they give, and C functions
--                                with goto
--   Win/Host                     modules/src/win/converters.c: extractDataFromHost
--   Win/Request                  modules/src/win/win_http.c: do_http_request_ctx; Delivers and
--                                Succeeds: what it hands to the handlers; Releases and Clean: what
--                                it holds
--   Win/Keys, Win/Strings        do_http_request_mtls_ and do_http_request_mtls; Chain, Ends: the
--                                loop over a chain of certificates; Store: the loop that
--                                clears the store; Listed, Releases, Clear, Twice: what it holds
--   Win/Client                   modules/src/win/httpclient_impl.cpp: Get, Post, Put; Headers:
--                                formatHeaders; Gets: what a request returns
--   Win/Owns                     rules on the resources that statements hold
--   Example/Handler              example/include/basic_handler.hpp: Handler; Downloads, Polls: what it
--                                downloads and answers, alone and in a poll
--   Example/Provision            example/ritms_auth/main.cpp and example/ritms_ott/main.cpp; Retries:
--                                the attempts and the document of the first
--   Example/Clients              example/standalone_client/main.cpp, example/up2date_client/main.cpp
--                                with DPSInfoReloadHandler; Built: the clients
--   Json/Laws                    members of the objects that a program builds
--   Tests                        concrete inputs
--
-- The state is explicit: a `Session` has the `Client`, a record of the fields of
-- HawkbitCommunicationClient, and the history of the calls out of the library. An action takes a
-- session to a result and a session; a result is a value, an exception or a fault. A fault stands
-- for behaviour that C++ leaves undefined or that stops the program: an assertion of RapidJSON, a
-- signed overflow, a null pointer, a place outside a string. What was changed before an exception
-- stays changed.
--
-- Parameters. `RapidJson` is the JSON library, a git submodule; `BuildLaws` states what it
-- documents of values that a program builds (a member that was added is found, an array holds what
-- was pushed). `Environment` has the answers of the servers and the user's handlers, which may
-- depend on all that happened before: a handler is a tree of the calls that it makes back into the
-- client, ended by its answer or its exception, and signals of other threads (stop,
-- requestToPoll) arrive in handlers and while the client sleeps. Listeners return. An answer of a
-- server may be any result, also one that the Unix client does not produce; `OverUnix` says that
-- each came through that client. `rejects` of `Environment` is what the constructor of the HTTP
-- client throws for a connection, and the answer of the provisioning service may be such an
-- exception. `OpenSsl` reads
-- certificates and keys out of a text; `Consumes` says that a certificate takes some of the text.
--
-- `HttpLib` is cpp-httplib; `Streams` is what it documents of a request with handlers.
-- `WinHttp` and `WinCrypt` have the answers of the calls of Windows, each by all that happened
-- before; the texts that they take are recorded in the history. `Succeeds`, `Sends` and `Decodes`
-- say that calls succeed, that pieces of a content fit into their buffers, and that a certificate
-- is decoded where it begins.
--
-- `System` has the environment variables and the files that the example programs read.
--
-- A function in C has its pointers, which of them are set, and the history; a statement goes on,
-- jumps to the label with a code, lets an exception of a handler pass, or writes outside a buffer.
-- A resource is acquired by the call that gives it and released by the call that frees it.
--
-- Bounds and fuel. Numbers are unbounded but for `int`, whose range is checked where the code
-- reads or computes one. The loop of `run` is on fuel; a round uses one unit, and one is left
-- to see that the client was stopped. The loop that loads
-- certificates has fuel one more than the length of the text. Printing a number has fuel one more
-- than the number, above its count of digits. The loops of the Windows client that receive a
-- content and that clear the store are on fuel, since the system decides when they end; one more
-- round than there are pieces is enough to receive them. The loop over a chain of certificates has
-- fuel one more than the length of the text. The loop of DPSInfoReloadHandler in the example, which
-- goes on until an attempt succeeds, is on fuel; one more round than there are attempts that fail
-- is enough.
--
-- Not modelled: cpp-httplib (modules/src/unix/httplib.h and httplib.cpp, a copy of another
-- project), the messages that the example programs print on the way, the build files and scripts.
-- Memory is modelled only for the C functions of the Windows client, and a signal that arrives in
-- the middle of a statement is seen at the next call out of the library.
pub mod Base
pub mod Text
pub mod Outcome
pub mod Multimap
pub mod Http
pub mod Uri
pub mod Json
pub mod Ddi
pub mod Dps
pub mod Unix
pub mod Win
pub mod Example
pub mod Tests
