-- ===== src/Lib.antt =====
-- The SSH server and client of the firmware: what esp-idf/src/sshd_wire.h, sshd_crypto.cpp,
-- sshd_session.cpp, ssh_client.cpp and parts of sshd.cpp do, as functions on explicit states, and what
-- holds of them.
--
-- How the program works. Bytes of a TCP connection reach onTcpRecv of sshd.cpp, which finds the session
-- of the connection's slot and calls session_on_tcp_data of sshd_session.cpp. That reads all that waits
-- into the session's buffer, takes the version line and then packets off its front (parse_packet), and
-- dispatches each by its number and the phase of the session. The handlers run the key exchange, log the
-- user in, and open one channel to a backend (the command line or the log), whose bytes come back
-- through session_on_backend_data. Answers go out by send_packet, sealed by sshd_crypto.cpp.
--
-- The client, ssh_client.cpp, goes the other way and blocks: cmd_ssh makes a job of its arguments, and
-- run_session dials, exchanges versions and keys, logs in and runs a shell or a command, with reads of
-- the connection that wait for a time. It shares sshd_wire.h and sshd_crypto.cpp with the server, and
-- has its own packet layer, hash and key derivation.
--
-- Where it is modelled:
--   Base      Boolean tests on native numbers, lists measured by them, byte strings.
--   Wire      sshd_wire.h: the encoders append to a string, a View is the buffer with its cursor.
--             Wire/Cursor, Wire/RoundTrip and Wire/Mpint have the lemmas.
--   Platform  what server and client call and do not define: mbedTLS, the two vendored libraries
--             (orlp_ed25519, mlkem_native), the random generator, the ITS streams, storage, the login
--             service. The model takes it as an argument; Crypto/Aead.StreamCipher has the documented
--             facts about ChaCha20 and Poly1305 that the round trips use.
--   Crypto    sshd_crypto.cpp: the wrappers; Crypto/Compare and Crypto/Aead have the lemmas, and
--             Crypto/Base64 what is documented of base64.
--   Session   sshd_session.h and sshd_session.cpp. Session is the struct, and World is the session with
--             what stands around it in a callback: the calls made so far, the number of random draws,
--             and the bytes that wait in the two streams. Session/Packet is the packet layer,
--             Session/Version and Session/Names the version and the algorithm lists, Session/Kex and
--             Session/Hash the key exchange, Session/Auth the login, Session/Channel and
--             Session/Requests the channel, Session/Machine the dispatch and the entry points.
--             Session/Safety and Session/Steady carry two invariants through every handler;
--             Session/Reach, Session/Authorized (with Session/KeyLine, KeyBlob), Session/Evidence,
--             Session/Accept, Session/Flow, Session/Window, Session/Termination, Session/Slot and
--             Session/Close are about whole callbacks.
--   Server    sshd.cpp: the table of slots with the ITS callbacks on it, and sshd reset (Server/Reset).
--   Keys      sshd.cpp: the authorized-key store with its validation; Keys/Migrate is keyMigrate.
--   Host      sshd.cpp: the host seed with its fingerprint and public line, and the listener's port.
--   Client    ssh_client.cpp. Client is the structs SshJob and Csess, and the actions on an Outbound: the
--             session and its job with what stands around them. Client/Packet is send_packet, try_parse
--             and recv_packet; Client/Hash the exchange hash and the keys; Client/Kexinit
--             check_kexinit; Client/KnownHosts known_hosts_check; Client/Kex do_version and do_kex;
--             Client/Auth do_auth and its methods; Client/Channel and Client/Run the channel with its
--             input, do_channel and run_session; Client/Relay the relay of keys in cmd_ssh, and
--             Client/Command the arguments of cmd_ssh and cmd_ssh_keygen. Client/Steps has the lemmas on
--             actions; Client/Ends goes through every action for run_session; Client/Kex/Trust and
--             Client/Auth/Seen are about success; Client/Packet/Mirror, Client/Hash/Agree,
--             Client/Kexinit/Meets and Client/Auth/Accepted put client and server together.
--   Tests     a platform that computes, and runs: a whole login, from the version line to the password.
--
-- Conventions. A handle, slot or index below 0 is none. Unsigned fields keep their wrap-around
-- (% 2 ^ 32, % 2 ^ 64). A handler that returns bool gives it with the new world. An out-parameter of a
-- callee is an array that it was asked to fill (out_array). Calls of ITS are events of the trace, the
-- newest first, and how many bytes a stream takes or gives is the platform's choice.
--
-- The client's reads. An Outbound has a script of the reads to come: the bytes of each, whether the
-- connection stands, what the user types, and the ticks that pass. An action that would read when the
-- script is used up is waiting, so it is one run with everything that the other side and the user do as
-- an argument. Time passes only in reads. An action gives its result, or failed with the text in the
-- job, and it stops at the first failure as the code's returns do.
--
-- Bounds. The loops of session_on_tcp_data, session_on_backend_data, derive_key, name_in_csv and the
-- decimal print run on fuel: one more than the bytes that wait, two more than the buffer's length, the
-- bytes asked for, the list's length, and the number itself. Each round takes or makes at least one
-- byte, so this is enough; session_on_tcp_data would give none if its fuel ran out. The loops of the
-- client run on the bytes in its buffer together with the bytes and reads of the script (to_come), and
-- would be waiting with a script that is not used up if that ran out.
--
-- Not modelled: of ssh_client.cpp the worker task with its mutex, the creation of its streams and the
-- output to the console, the diagnostic lines, cmd_ssh_showkey and the registration of the commands;
-- the output of the command line, the registrations and the task loop in sshd.cpp; log lines; the
-- vendored libraries. These are calls of FreeRTOS, storage and the console. sshdSlotFree, which
-- session_close calls, is applied when the callback has returned. name_in_csv of ssh_client.cpp is the
-- same text as that of sshd_session.cpp, and one definition stands for both.
pub mod Base
pub mod Wire
pub mod Platform
pub mod Crypto
pub mod Session
pub mod Server
pub mod Keys
pub mod Host
pub mod Client
pub mod Tests
