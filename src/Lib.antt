-- ===== src/Lib.antt =====
-- CF VPS Monitor is a server monitor that runs as a Cloudflare Worker (worker), with a browser
-- front end (frontend), a browser SSH terminal (webssh), an agent in Go (agent) and a PostgreSQL
-- schema (supabase). This library models the worker's SSH transport, the engine of its SFTP
-- client, the SFTP handler of the browser and the input queue of its terminal, in TypeScript.
--
-- Files:
--   Common: lists and tests over native numbers, results that may throw (Common/Outcomes), code
--     that changes a state and may throw (Common/State), and typed-array writes (Common/Blit).
--   Ssh/Wire: worker/src/webssh/ssh/utils.ts. A Uint8Array is the list of its bytes, and a number
--     that the code treats as an unsigned integer is a natural number. readUint32 is read_uint32,
--     concat is concat_bytes, toSSHMPInt is to_ssh_mpint.
--   Ssh/Packet: worker/src/webssh/ssh/packet.ts. Buffer has the chunk buffer of SSHPacketParser
--     (feed, peekBytes, readBytes, consumeBytes, compactChunks), Parser its nextPacket, Builder
--     the class SSHPacketBuilder. Parser/Queue is the specification: the same parser on one flat
--     list.
--   Sftp: worker/src/webssh/ssh/sftp.ts. Frames has the loop of SFTPClient.feed, Frames/Stream the
--     byte-by-byte reader that it is compared with, Reader the class Reader, Client the request
--     numbers, the pending requests and disposal, Dispatch what the client does with packets. A
--     promise that is settled and a packet that is sent are entries of logs in the client's state;
--     a timer is an operation. The parser of a request's response is a field of the pending
--     request, as in the source; the text decoder is an argument. Attrs has the encoders
--     (toUint64, encodeAttrs), Parsing parseAttrs, parseStatus and parseName, Operations the
--     methods realpath to rename with the parsers of their responses. The test of feed that its
--     chunk is a Uint8Array is the type of the argument. A size or an offset that is
--     not an integer of at least 0 is the constructor unfit; the other numbers that a caller gives
--     are natural numbers.
--   Sftp/Handler: worker/src/webssh/backend/sftp-handler.ts, the methods that the session calls
--     for the browser, and the file kinds and permissions of worker/src/webssh/ssh/sftp-types.ts
--     (Entries). Protocol has the calls and messages, State the class's fields, the arrivals and
--     initialize, Arrivals what they leave alone, Opening announceReady, Downloads download
--     (start_download), Uploads the five methods of an upload, Listing list, remove, mkdir and
--     rename. The SFTP client and the far side are an argument, serve: to each awaited call it
--     gives the answer, the rest of the world, and what arrived meanwhile. The session runs the
--     methods one after the other on a chain of tasks, but for cancelDownload, onClosed, dispose
--     and initialize; those, with the error of a flush, are what may arrive. initialize is two
--     arrivals: what it does when the client's initialize is answered, and when realpath is. What
--     the handler asked and sent is a log of events. A string is the list of its code units.
--     Handles says which handles the handler holds by that log: those that it was given and has
--     not asked to close. A handle that the far side opened too late for the client's timer is
--     none of them.
--   Session/Input: queueInput and flushInput of worker/src/webssh/backend/session.ts, with what
--     markReady and close do to the queue. flushInput up to its await is one step and what
--     follows, resume, another, so that other steps may come between.
--   Ssh/Channel: worker/src/webssh/ssh/channel.ts. A method of SSHChannel is a function from the
--     state to its result or error and the state that it leaves, which a throw keeps. Requests has
--     the builders of channel requests.
--
-- A packet is decrypted, its code is checked and a new packet is encrypted by functions that are
-- arguments of the model (decrypt, verify_mac, encrypt, mac); what the theorems need of them is
-- stated by IsTagCipher and IsMacCipher in Ssh/Packet/Builder/RoundTrip. `random n` stands for the
-- n bytes of crypto.getRandomValues, and `utf8` for TextEncoder.encode. The awaits of nextPacket
-- are not modelled as points where other code runs: a feed during one only appends.
--
-- Loops over chunks, bytes and strings are recursions on the list or on a counter. Two loops of
-- the SFTP client and two of its handler use fuel: that of feed has the chunk's length, and each
-- pass takes a byte; that over the extensions of a VERSION packet has the number of bytes left,
-- and each pass reads eight; that of download has the greatest file size and one, since each pass
-- sends a byte at least; that of list has a bound that its caller gives, and no result without
-- fuel, since a far side that answers with `.` alone keeps it going for ever. Numbers are natural
-- numbers with the remainder written out where JavaScript shifts by 0; the subtractions of the
-- source are on values that its guards keep from going below 0, and where they do not (an offset
-- past the end of the data, the bytes of an overfull queue) stopping at 0 takes the same branch.
--
-- Not modelled: the queue of bytes that the SFTP handler sends (enqueue and flush), the checks and
-- defaults of the options of SFTPClient, a sendData that throws where it is called, key exchange,
-- authentication and the rest of the session driver, the HTTP routes, the durable objects, the
-- database, the front end, the agent.
mod Common
pub mod Ssh
pub mod Sftp
pub mod Session
