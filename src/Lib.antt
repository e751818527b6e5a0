-- ===== src/Lib.antt =====
-- A model of play, a C++ library for game servers over asio: what its sessions put on the wire and
-- take from it, how a pulse hands frames and replies on, its timers, how bots of play/ensure run
-- their acts, the containers of play/app, the chat server of play/sample/alpha that is built on all
-- of these, and the helpers they stand on.
--
-- Parts and files. Common has the shared helpers; Common/Outcome is PLAY_CHECK of
-- play/base/macros.hpp, as a run that returns, aborts (an assertion failed), throws or faults
-- (undefined behaviour), in a build with assertions and one without; Common/Map is std::map.
--   * Base/StringUtil is play/base/string_util.hpp: `split` and its loop.
--   * Base/Snowflake is play/base/dynamic_snowflake.hpp: `next`, with the clock as an argument.
--   * Base/ObjectPool is play/base/object_pool.hpp: `construct` and `release` on addresses; the
--     address that operator new would return is an argument.
--   * Net/Bytes and Net/Serializer are play/net/util/serializer.hpp: `serialize` and `deserialize`.
--   * Net/LengthDelimited is play/net/protocol/length_delimited.ipp: `encode` and `decode`.
--   * Net/PlainProtocol is play/net/protocol/plain_protocol.ipp: its state and each operation;
--     `accepted()`, `connected()` and `closed()` are `accept`, `connect` and `close`.
--   * Net/StreamProtocol is play/net/protocol/stream_protocol.ipp.
--   * Net/Secure is play/net/protocol/secure_protocol.ipp; its Exchange is sodium_handshake.ipp and
--     its Cipher sodium_cipher.ipp, both beside it, with two functions for the branches of
--     `on_handshake`. Net/Sodium is libsodium, a parameter with what it documents: what it draws at
--     random is an argument, and a secure session is proved for generated keys.
--   * Net/Session is play/net/session.ipp: Start has `start` and `handle_recv`, Receive has
--     `recv_frames` and the chunks that `handle_recv` commits, Send has `send`, `start_send` and
--     `handle_send` over the two buffers, SendFrame the `send` with a topic, as `send_frame`, and
--     Close has `close`, as `close_socket`, and `handle_close`.
--   * Net/Server and Net/Client are play/net/server.ipp and play/net/client.ipp: their session table,
--     their session, and the calls of the application and of the pulse.
--   * Net/Pulse is play/net/pulse.ipp: Calls has `subscribe`, `call` and the receivers of `call`;
--     Tree has the heap of pulses, the interests that a root keeps, `dispatch`, `stop` and the
--     destructor, as `destroy`, and its `subscribe_at` is the whole of `subscribe`.
--     Start has the setters, `inherit_session`, `get_runner` and `start`, as `start_pulse`.
--   * Net/PulseFb is play/net/pulse_fb.ipp, over flatbuffers as a parameter, and the `on_receive` of
--     pulse.ipp, as `on_receive_frame`.
--   * Net/Timer is play/net/runner/timer_service.ipp with the timers of runner.hpp and pulse.ipp. When
--     time is up, and when asio runs a handler, are steps.
--   * Net/Address is play/net/util/address.cpp.
--   * App/SessionContainer is play/app/session_container.hpp; App/Services is play/app/app.ipp and
--     actor.ipp, the services of an app and the acts of an actor.
--   * App/Index and App/ActorContainer are play/app/index.ipp and play/app/actor_container.ipp:
--     `find` of an index is `look_up`, and `find` and `del` of the container are a function for
--     each kind of key. `del` reads the keys to unlink through the erased iterator, which faults.
--     The destructor of an actor in play/app/actor.hpp, where it runs, is a pure virtual call.
--   * Ensure/Path and Ensure/Acts are play/ensure: the paths of act_ensure.cpp, and the acts of one
--     composite, serial or parallel. What the `on_activate` of such an act returns is a field of it.
--     Blackboard is blackboard.hpp, and Bots is bot.cpp and ensure.cpp.
--   * Alpha is play/sample/alpha/app: Room is front/room_actor.cpp and room_user_actor.cpp, RoomRunner
--     is front/room_runner.cpp, Lobby is front/lobby_runner.cpp and lobby_user_actor.cpp, UserMaster
--     and RoomMaster are the files of those names in back, and Startup is app.cpp. `do_chekin` is
--     `do_checkin`, and a posted deletion is a function of its own. The actors stand in the
--     containers of App, the calls of the lobby in the pulses of Net, and the broadcasts to the
--     fronts in the session container.
-- A session encodes with its protocol into the buffer that collects, and decodes from the buffer
-- that the socket fills; a pulse gets the frames of its sessions.
--
-- Bytes and topics are natural numbers with their widths written out: a topic is below
-- 256 ^ width, a length field below 2 ^ 32. The loop of `recv_frames` has one more fuel than there
-- are bytes and takes a byte at least each round; `split` has one more than the text has bytes.
--
-- Not modelled: sockets, threads, strands and posts of asio (their results are arguments, the
-- bytes given to `async_send` a result); locks, since each operation that takes one is a step (the close of a session in `handle_recv`
-- takes none, and is a step too);
-- handlers of the application; jumps through the tree of acts and their updates in play/ensure; in
-- the sample, the requests for rooms that a user passes on to the back, whose answers nobody handles,
-- and the acts of its tests, whose receivers are empty; that a user's pulse keeps the user alive after
-- it was deleted, and goes on to handle its frames; the copied libraries play/db and
-- play/base/observer_ptr.hpp; generated code but for what the sample reads of it; uuids, which are
-- boost's; logging and configuration, which are input and output.

pub mod Alpha
pub mod App
pub mod Base
pub mod Common
pub mod Ensure
pub mod Net
