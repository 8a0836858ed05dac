-- ===== src/Lib.antt =====
-- A verification library for packet-replay, which reads a capture file, records the
-- conversations in it as lists of actions (connect, send, receive, close), and replays these
-- against a test server.
--
-- A frame of the capture is cut into layers (src/lib/capture.cc with
-- src/include/network_layers.h and transport_packet.h). The store of conversations
-- (src/include/conversation_store.h) finds the conversation of the packet by a key that the
-- factory (src/lib/conversation_factory.cc) computes, or makes one if a server is configured for
-- the packet's source, or if nothing is configured and nothing kept yet. The conversation
-- (src/lib/tcp_conversation.cc, src/lib/udp_conversation.cc) then records the packet.
--
-- A replay takes the actions of a conversation in order (src/http_replay/http_replay.cc,
-- src/udp_replay/udp_replay.cc). The HTTP client hands what the capture has of a response and
-- what it reads from the server to two processors (src/http_replay/http_response_processor.cc)
-- and compares these when both are complete; the UDP client gives every datagram to a packet
-- validator.
--
-- A script is the text of a conversation, which src/lib/conversation_serializer.cc writes and reads.
-- A packet validator may call a function of the user's in Python (src/lib/python_api.cc).
--
-- Modules and sources:
--   Memory, Memory/Laws: pointers into packet data, byte order, memcmp and memcpy.
--   Util: src/lib/util.cc. tokenize (getline), bytes_to_hex_string, trim, to_lower, token;
--     Util/Number has std::to_string and std::stoul, Util/Search has find; Util/Tokens, Util/Hex
--     and Util/Trim hold the proofs.
--   StringMap: std::map with strings as keys, as a sorted association list.
--   Layers: src/include/network_layers.h. One constructor of Layer for each class, one function for
--     each virtual method; Layers/Inet has the methods on addresses; Layers/Fields describes the
--     headers as a sender writes them, independently of the accessors.
--   Packet: src/include/transport_packet.h. Action: src/include/action.h.
--   Conversation: src/include/packet_conversation.h and target_test_server.h.
--   Tcp: src/lib/tcp_conversation.cc. process_capture_packet is processCapturePacket,
--     close_process, syn_sent_process, syn_recv_process and est_process are the handlers of the
--     four states. Tcp/Handlers has the outcomes of each handler, Tcp/Segments the abstract machine
--     over segments, Tcp/Session whole connections, Tcp/Script what holds after any packets.
--   Udp: src/lib/udp_conversation.cc.
--   Factory: src/lib/conversation_factory.cc. tcp_ip_get_key is tcpIpGetKey; Factory/Spec has
--     parseIpV4Spec and parseIpV6Spec.
--   Store: src/include/conversation_store.h. ConversationFactory is the record of operations that
--     the store takes; Store/Instances fills it for TCP and for UDP. Store/Selection has the
--     branches of getConversation, and Store/Selected says what it gives without its code.
--   Capture: src/lib/capture.cc. packet_handler is packetHandler, pcap_loop the calls of libpcap.
--     Capture/Dissect has one frame, Capture/Load the loop, Capture/Recording a whole capture file.
--   Properties: src/lib/properties.cc. Validator: src/lib/packet_validator.cc, both overloads of
--     validate.
--   Http: src/http_replay/http_response_processor.cc and .h. Http/ContentLen and Http/Chunked are
--     the two data processors, Http/Header is parseHeader, Http/Response is HttpResponseProcessor,
--     and Http/Numbers has strtoul. Http/Chunked/Stream describes a body in chunks as it arrives,
--     and Http/Header/Fields a head, both as a server writes them; Http/Response/Completes has the
--     pieces that make a response complete.
--   Stream: std::istream on a text that is there from the start: getline, peek, and
--     both kinds of get.
--   Serializer: src/lib/conversation_serializer.cc. write_conversation is write, create_loop the
--     loop of create_action; Serializer/Places has the places in a text. Serializer/Data is
--     read_action_data: read_round is a round of its loop, check_tag the part under `if (check)`.
--     Data/Steps has one round, Data/Runs the texts that can be read back, Data/Loop the loop,
--     Data/Short a '>' that comes too early. Serializer/Reader is read: read_headers its first
--     loop, new_for the choice of the conversation, find_type and read_props the two inner loops of
--     read_actions. Reader/Lines and Reader/RoundTrip have the actions as they are written,
--     Reader/Script a whole script, Reader/NoData actions without data, Reader/NoAddress the
--     headers as they are written.
--   Python: src/lib/python_api.cc. new_call and destroy_call are the constructor and the destructor
--     of PythonCall, validate_call is ValidatePythonCall::validate. Python/Counts has the references
--     to objects that the program holds.
--   Network: the system calls of the clients, as a record of operations on a state.
--   CommandLine: what the two functions main share; HttpReplay/Program and UdpReplay/Program are
--     main.
--   HttpReplay: src/http_replay/http_replay.cc. connect_action, send_action, recv_action and
--     close_action are the cases of the switch in replay; write_loop and read_loop are its inner
--     loops.
--   UdpReplay: src/udp_replay/udp_replay.cc and .h. destroy is the destructor, parse_validator is
--     parseValidator. UdpReplay/Datagrams has a whole replay on sockets that do what is documented,
--     and UdpReplay/Lifetime the validator that several clients share.
--   Tests: sample frames, runs of the model on them, and the theorems at these inputs.
--
-- How the state is modelled. Bytes are natural numbers and texts lists of them. A pointer is the
-- rest of its buffer; a read outside the buffer, which the code does not check for, is the error
-- `fault`, and so is following a null pointer. Exceptions are the other errors of Result. An
-- operation that changes an object returns the new one. The processor of a body of a given
-- length starts with zeros in its buffer, which the program leaves as they are. A pointer to a
-- conversation is its key in the store, so a conversation changes in the store alone. The host
-- is little-endian, an `int` is an integer without bounds where sizes are subtracted, and 16-bit
-- ports keep their wrap-around. Constants of the system's headers (AF_INET6 = 10, the sizes of
-- sockaddr_in and sockaddr_in6) are those of Linux.
--
-- Most loops are structural; the others run on fuel, which is enough. A round of tokenize and of
-- create_action takes at least one byte, and the fuel is more than the length of the text; a
-- round of to_string divides the number by ten, and the fuel is more than the number; each line
-- of a head takes a byte, and so does every round of the loops of the reader, or it is the last:
-- their fuel is more than the length of what is left (Stream/Bounds, Serializer/Data/Total,
-- Serializer/Reader/Total and Terminates). A round of ChunkedProcessor::process takes
-- at least one byte, and so does a call of write that succeeds; the fuel is the length of the
-- data. When a server sends without end the loop of RECV never ends, so its fuel is an argument,
-- and the theorems ask for as much as there are reads. These three loops, that of create_action
-- (Serializer/Places) and those of the reader give the error `diverges` when the fuel runs out.
--
-- Parameters: inet_pton and inet_ntop (the record Inet, with the documented round trip as
-- IsInet), libpcap (CaptureFile: the frames, the link type, whether opening and reading
-- succeed), the system calls of the clients (the record Network, with IsWriter and IsWire for
-- what is documented of write, sendto and recvfrom), the functions to_base64 and from_base64 of
-- the base64 library, of which the theorems ask that the second reads back what the first
-- writes, getopt (the options that it gives, and the operands), getaddrinfo (family_of: the
-- family of a numeric address), the order in which a map
-- gives its entries, whether memcpy copies where the two places overlap, which the standard
-- leaves open and the reader of data relies on, the CPython API (the record Python, with
-- IsCounted for what is documented of references), what std::filesystem::path says of a file
-- name, and the method of the packet validator that a UDP client is given.
--
-- Not modelled: the copy of a base64 library, the sample script in Python and the text on the
-- console. What was done before an exception left a replay is not kept.
pub mod Base
pub mod Memory
pub mod Util
pub mod StringMap
pub mod Layers
pub mod Packet
pub mod Action
pub mod Conversation
pub mod Tcp
pub mod Udp
pub mod Factory
pub mod Properties
pub mod Validator
pub mod Http
pub mod Stream
pub mod Serializer
pub mod Python
pub mod Network
pub mod CommandLine
pub mod HttpReplay
pub mod UdpReplay
pub mod Store
pub mod Capture
mod Tests
