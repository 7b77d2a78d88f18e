-- ===== src/Lib.antt =====
-- go-iecp5: the IEC 60870-5-101 and 60870-5-104 telecontrol protocols.
--
-- The program has three layers. The package asdu holds the application message, the ASDU: an
-- identifier (type, number of objects, cause, addresses) and the octets of the information
-- objects. The packages cs101 and cs104 carry ASDUs: cs101 inside FT1.2 frames on a serial link,
-- cs104 inside APDUs on a TCP connection, where an I frame has an ASDU and two sequence numbers, an
-- S frame acknowledges and a U frame starts, stops and tests the transfer. A cs104 server session
-- runs recvLoop (octets to APDUs), run (the state machine between the peer, the queue of ASDUs to
-- send and the timers) and handlerLoop (received ASDUs to the application); Send puts an encoded
-- ASDU into the queue that run takes from.
--
-- Shared has the lists, Boolean tests, integers and bit facts that the rest uses.
-- Asdu models asdu/: Error (error.go), TypeId and Identifier (identifier.go), Information
-- (information.go), Message (the types and constructors of asdu.go), Marshal (MarshalBinary,
-- UnmarshalBinary and FixInfoObjSize of asdu.go), Codec (codec.go), System (the getters of csys.go),
-- Monitor (mproc.go): what its senders and getters share, with Monitor.Elements (the information
-- objects), Monitor.Senders, Monitor.Getters and Monitor.Packed (the exported functions),
-- Command with Command.Functions (cproc.go, cpara.go, msys.go).
-- Cs101 models cs101/: Frame (frame.go: ParseFrame, MarshalBinary) with Control (ControlField) and
-- Frame.Decode (DecodeASDU and the other readers), Config (config.go), Link (what server.go and
-- client.go share), Server (server.go) with Server.Primary and Server.Secondary (its two link
-- stations) and Server.Handler (the calls of the application), and Client (client.go) with
-- Client.Queue, Client.Handle, Client.Run (the primary station of the unbalanced mode) and
-- Client.Commands. Cs101.Exchange puts the two stations on one line.
-- Cs104 models cs104/: Apci (apci.go), Config (config.go), and of server_session.go Sequence
-- (seqNoCount, updateAckNoOut), Session (run), Receive (recvLoop), Handler (serverHandler, Send).
-- Transfer joins the layers from one end to the other. Function names are the source's in snake
-- case; a child module named Laws or for what it proves holds the lemmas, and Tests the runs.
--
-- FileTransfer models filetransfer/: Sections (splitSections, with FileChecksum of asdu/filet.go),
-- Message (the decoded objects of asdu/filet.go), Sender and Sender.Step (sender.go, with the store of
-- store.go), Receiver (receiver.go). Both handle decoded messages, and one file at a time.
--
-- Octets, words and durations are native numbers; a Go conversion that cuts off is written out as a
-- remainder, and int16 and int32 are integers with their two's complement. Slices are lists, and an
-- index out of range is a result of its own where the code can reach it. Errors are constructors of
-- one type for each package; their texts are left out. A method that changes its receiver returns
-- the changed one. The state machine of run is a step over the branch that a select takes, with the
-- clock readings in the event, so every interleaving is a list of events; channels are the lists
-- of what was put into them, and the model does not bound those of cs104. The channels of cs101 have
-- their capacities (20 frames, 50 payloads), and a send to a full one is a blocked station; the
-- client's channel of received ASDUs alone is unbounded. On the line of Cs101.Exchange a frame
-- passes whole or is lost, and a response timeout strikes when the line is silent.
-- The one recursion on fuel is recvLoop: each read takes an octet at least, so one more than the
-- number of octets is enough, and more makes no difference. Everything else recurs on a list.
--
-- Not modelled: sockets, serial ports, goroutines and locks, logging, the texts of String and
-- MarshalJSON; a float32 is its 32 bits, and a time is the three or seven octets that carry it. The
-- application's handler is an argument. cs103, the cs104 client, the loops that connect a station
-- and hand its ASDUs to the client's application, the senders of asdu/csys.go and the octets of the
-- file messages in asdu/filet.go are outside.
pub mod Shared
pub mod Asdu
pub mod Cs104
pub mod Cs101
pub mod FileTransfer
