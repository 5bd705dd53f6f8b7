-- ===== src/Lib.antt =====
-- Verification of J2534_OIP_Wrapper: a J2534 (SAE PassThru) library for Windows that offers the
-- PassThru functions to a diagnostic program and carries CAN messages over IP.
--
-- The program. The library (j2534_OverIP/) exports the PassThru functions and forwards them to one
-- of several implementations. The one with logic of its own is J2534CannelloniClient
-- (j2534_OverIP/j2534cannelloniclient.{h,cpp}): it speaks the Cannelloni protocol, CAN frames in UDP
-- packets, with a bridge at one of three ports. Each open device has a channel with a socket, a
-- queue of received messages and a thread that fills it; the functions and the threads share the
-- channel map. Every function also reports its arguments and its result, as a CBOR map, to a
-- monitoring application (j2534_OverIP_App/) through a named pipe.
--
-- The files.
--   Prelude: Boolean tests, lists, bits, little-endian words, association lists for std::map.
--   Message: PASSTHRU_MSG (j2534_OverIP/PassThruStruct.h), the status codes
--     (j2534_OverIP/j2534_defs.h), and results that can be a fault, undefined behaviour of C++: a
--     null pointer, an access outside an array, the use of freed or of uninitialised memory;
--     and, behind the interface, a wait that does not end.
--   Report: what is put into a report's map (j2534_OverIP/expipeclient.h, cbor_utils.cpp).
--   Cannelloni/Packet: the packed structs, `packet_bytes` for the packet that PassThruWriteMsgs
--     builds, `read_frames` for the loop of the receive thread over the frames of a packet.
--   Cannelloni/Receive: ChannelContext, and `poll`, one round of startReceiveThread.
--   Cannelloni/Client: the members of J2534CannelloniClient as a record. Its functions are below
--     it: Open (PassThruOpen), Channels (PassThruClose, PassThruConnect, PassThruDisconnect),
--     ReadMsgs, WriteMsgs, Devices (PassThruScanForDevices, PassThruGetNextDevice,
--     PassThruGetNextCarDAQ), Select, Ioctl (PassThruIoctl, PassThruReadVersion), Errors
--     (PassThruGetLastError), Unsupported (the functions that only report), Threads (a round of a
--     channel's thread in the client). Valid is the representation invariant, Invariant and its
--     children show that the functions keep it, Lifecycle is about calls one after the other.
--   Cannelloni/Memory, Cannelloni/Calls: the functions with the memory behind their pointers.
--     Methods is their table, the client as an implementation of the interface; Sessions is about a
--     call, Runs about calls in a row, also of the exported functions, Refused about the functions that
--     are not implemented.
--   Cannelloni/System: the constructor with getDefaults, and runs of calls and thread rounds.
--   Cannelloni/Delivery: a message from one client to another.
--   Cbor: CBOR values; Encode has what the library puts into a report's map
--     (j2534_OverIP/cbor_utils.cpp).
--   Pipe: the framing of messages on the pipe (ExPipeClient::send of j2534_OverIP/expipeclient.cpp)
--     and their reassembly in the application (ExPipeServer::processData of
--     j2534_OverIP_App/expipeserver.cpp); Steps are the steps of its loop, Reassembly its end and the
--     chunks, Frames both sides together. Envelope is the map of a message on both sides, Connect
--     the opening of the pipe (ExPipeClient::connect).
--   Interface: the methods of ExJ2534WrapperInterface (j2534_OverIP/Exj2534WrapperInterface.h) with
--     the types of their arguments, and runs of calls on an object; Runs are lemmas on them.
--   DllWrapper: J2534DllWrapper (j2534_OverIP/j2534dllwrapper.{h,cpp}), which loads another PassThru
--     DLL, forwards every call and reports it: its state, loadDll, and the template of its methods.
--     Notices are its messages to the pipe.
--     The methods are in Device, Messages, Queries and Extra, Methods is their table. Readable says
--     which arguments a report can be made of, Reports is about making it, Transparent and Failures
--     about what a caller sees.
--   Emulator: J2534Emulator (j2534_OverIP/j2534emulator.cpp), with Methods for its table; Replies
--     and Enumeration are what a caller gets.
--   SimpleLogger: ExJ2534SimpleLogger (j2534_OverIP/j2534simplelogger.cpp).
--   Global: the factory and the interface pointer (j2534_OverIP/j2534global.{h,cpp}), DllMain
--     (j2534_OverIP/main.cpp) and the exported functions (j2534_OverIP/j2534.cpp); Dispatch and
--     Client are about which implementation answers them.
--   Crc32: the checksum by which a process names itself (ExDbg::crc32 of j2534_OverIP/ExDbg.h);
--     Table is about its table and the checksum of the standard.
--   Sockets: the older socket server (j2534_OverIP/exj2534oipsocks.cpp) with its loader of a DLL
--     (j2534_OverIP/exj2534device.cpp); Rounds is about runs of its threads.
--   Monitor: the list of received messages in the application
--     (j2534_OverIP_App/exj2534readmsgslist.cpp); Rows is what a report adds to it. Views are the
--     pages (j2534_OverIP_App/exj2534wrapper.cpp, exj2534emulator.cpp, exj2534cannelloni.cpp,
--     exj2534writemsgslist.cpp), Roles the cells of their lists, History exportToJSON and
--     loadFromJSON, Server the way of a message to its page
--     (j2534_OverIP_App/exmessagepreprocessor.cpp). Arrival is about messages from the pipe, Pages
--     about the pages after a message, Reload about a history that is loaded, and Journey about a
--     call from the wrapper to the page.
--   Examples: concrete data, and the theorems at it.
--
-- How the code is modelled. A function takes the client and returns it anew with the status and
-- what is written through its pointers; a pointer that may be null is an option or a flag. The
-- mutex of the class makes the functions run one after the other; the receive threads run beside
-- them, and a run is a sequence of calls and of thread rounds in any order. `unsigned long` is a
-- 32-bit word, bytes are numbers below 256, and the sequence number is taken modulo 256. Winsock,
-- the registry and the clock are parameters: which socket is opened, whether a connection and a
-- send succeed, what `recv` returns, what the time is. The theorems name what they ask of them: a
-- new socket is not one that is open, `recv` returns at most as many bytes as the buffer has, a
-- sleep of 10 milliseconds lasts that long.
--
-- An object behind the interface is a state with an implementation: a function from the called
-- function, its arguments and the state to the status, the arguments as the call leaves them and the
-- new state. The DLL that J2534DllWrapper wraps is such an implementation, a parameter; LoadLibrary,
-- GetProcAddress and the registry are parameters too. The Cannelloni client as an implementation is
-- Cannelloni/Methods: its state holds what will surround each call, the datagrams that arrive before
-- it and the answers of Winsock and the clock. Where the exported functions choose among the classes
-- the client is a parameter, and the theorems hold of that implementation too.
--
-- Freed texts. cn_cbor_string_create keeps the pointer that it is given. Many reports, those of all
-- errors among them, are given the text of a std::string that is gone when `cbor_to_data` reads it;
-- `reads_freed` (Report) finds these. In the methods of J2534DllWrapper and behind the interface of
-- the Cannelloni client such a report is a fault, `use_after_free`. The functions of the client below
-- that return all the same: `read_freed` (Cannelloni/Client) says of the state that the last report was
-- such a one, and what the model returns then is what the code returns if the read does no harm. The
-- theorems on these paths say so. loadDll frees a part of a CBOR map and then the map; its wrapper has
-- this, or the freed text of its error, in `damage`, and what is modelled behind it is likewise what the
-- code does if that does no harm.
--
-- Fuel. The waiting loop of PassThruSelect has fuel for timeout / 10 + 2 rounds: each round but the
-- last sleeps 10 milliseconds, so that one of them finds the time over. Were a sleep
-- shorter, the call would be a fault, `endless`, behind the interface. `decimal` has the ten digits
-- of a word. The reassembly of a chunk has fuel for every byte of the buffer and one round more, and
-- each round takes a byte off it. All other loops follow a list or a count.
--
-- The application. Qt is a parameter: how bytes are read as CBOR, what numbers and times look like,
-- the conversions to and from JSON; so is cn-cbor, how a CBOR value is encoded. The theorems name what
-- they ask of them: that Qt reads the value that cn-cbor has encoded, that a JSON text is read as it
-- was written, and that a JSON object has no number as key. The CBOR values themselves, with the
-- lookup in a map, are written out. A timer without delay is taken to fire before the next message.
--
-- Not modelled: the encoding of CBOR by the cn-cbor library, ExPipeClient::receive, which nothing
-- calls, printing, removal of an element by its address, and the rest of the Qt application: its QML
-- pages and settings.
pub mod Prelude
pub mod Message
pub mod Report
pub mod Cannelloni
pub mod Pipe
pub mod Cbor
pub mod Crc32
pub mod Interface
pub mod DllWrapper
pub mod Emulator
pub mod SimpleLogger
pub mod Sockets
pub mod Global
pub mod Monitor
pub mod Examples
