-- ===== src/Lib.antt =====
-- UE4TeamProjectServer: the servers of an online game and the library under them.
--
-- The servers talk to game clients and to one another in packets: a 16-bit length, an opcode and
-- fields. UE4DevelopmentLibrary has byte streams, packets and sessions; UE4Model has the objects of
-- the game and the systems of the zone server, which change them on behalf of the clients' packets.
--
--   Common    names shared by all files: the outcome of a call (`Result`: a value, an exception of
--             ExceptionType, or a fault, which is what C++ leaves undefined), lists and arrays over the
--             native numbers, Boolean tests, signed indices; Keyed has the map operations of the servers
--             over an interface of keys, Calls the calls that keep their state when they throw.
--   Stream    UE4DevelopmentLibrary/Stream. ByteStream.antt has the record of ByteStream.hpp with the
--             memory as a list of bytes and the checks of ByteStream.cpp; InputStream.antt a reader per
--             ReadInt8 .. ReadString, InputStream/Reads what a reader takes from the bytes that stand
--             before it; OutputStream.antt a writer per WriteInt8 .. WriteString with the growth of the
--             buffer, OutputStream/Writes what a writer appends; RoundTrip joins the two.
--   Nio       UE4DevelopmentLibrary/Nio and the packet classes of UE4DevelopmentLibrary/Server.
--             OutPacket, InPacket and Buffer are NioOutPacket/UE4OutPacket, NioInPacket and NioBuffer,
--             Cipher is UE4PacketCipher, Session is NioSession with Send, OnSend and OnRead; Framing
--             and its children follow a stream of packets through OnRead, Session/SendQueue the
--             send queue through any calls, PacketHead a packet from its constructor to the socket.
--   Server    RemoteServerInfo and RemoteSessionInfo of UE4DevelopmentLibrary/Server, as one server
--             writes them for another, and Client of UE4Client.
--   ZoneServer  UE4Model/Server/ZoneServer.cpp: Moves and Fights have the handlers of movements and hits on
--             a store of characters that clients and zones share, Dispatch their cases in ProcessPacket,
--             Spares and Apart what they leave alone, Others and Hits what a broadcast sends;
--             Inventories has the move of an item with the reply to it.
--   ZoneSystem  UE4Model/System/ZoneSystem.cpp: Instances makes and finds zones from the tables of
--             UE4Model/Provider and erases empty dungeons; Sweep is what a pass of the thread leaves.
--   Utility   UE4DevelopmentLibrary/Utility/UUID.cpp: the text of a UUID.
--   Channel   the packets that the servers exchange, with their fields in the order in which sender and
--             receiver of UE4LoginServer, UE4IntermediateServer and UE4LobbyServer write and read them.
--   Login     UE4LoginServer/LoginServer.cpp: accounts made and checked, and the way on to a lobby.
--   Intermediate  UE4IntermediateServer/IntermediateServer.cpp: the table of servers, Balance with the
--             choice of the least loaded, and the hand-over of a client from one server to another.
--   Lobby     UE4LobbyServer/LobbyServer.cpp with UE4LobbyCharacterInfo: Requests has the handlers of a
--             client, Dispatch those of the intermediate server and ProcessPacket, Listing the list of
--             characters; Spec is a hall of guests and tickets, which forgets the rest, and Refinement
--             relates the two; Guards, Characters and Entry follow single calls.
--   Migration a login through the three servers: Arrival is a packet that reaches the handler of its
--             receiver, Calls the calls on the way, Flow their composition.
--   Model     UE4Model/Model: FVector, ZoneObject and PawnObject as they are written and read; Item with
--             EquipItem and ConsumeItem; Inventory, Equipment and Character with InventoryToEquipment,
--             EquipmentToInventory, ChangeInventoryItemPosition and DestoryItem, whose proofs are in
--             the children of Character (Moving, Counting and Exchange on moves, Wearing, Keeping and
--             Totals on equipment, Placing on empty places).
--   Matching  UE4Model/System/MatchingSystem.cpp and its callers in UE4Model/Server/ZoneServer.cpp.
--             Match has Join, Remove and Confirm on the seats, Service the queue, the clients' weak
--             pointers and HandleMatchingRequest, HandleMatchingComfirmRequest and the end of OnClose;
--             Seats, Queue, Lookup, Leaving, Binding, Withdrawal, Spawning and Requests follow one call,
--             Reachable any run of calls, Progress two runs, Bystander a client that asks too late.
--   Party     UE4Model/System/PartySystem.cpp: parties, and who is in them.
--   Zone      UE4Model/Model/Zone.cpp: SpawnCharacter and RemoveCharacter, and the member that runs the
--             monsters of a dungeon.
--   Tests     the theorems and some definitions at concrete inputs.
--
-- Stateful code takes its state and returns the state after it. Integers are the numbers of their bit
-- patterns and wrap around where they are computed; floats are bit patterns that are only copied. A
-- lock makes the calls under it one step, and the order of calls is explicit. What a call sends or
-- starts is recorded in order, in a field of its own.
--
-- The loop of OnRead runs on fuel, one more than the bytes in the buffer: every packet takes a byte
-- at least, so that the loop ends by itself. The other loops are over a list.
--
-- Requests about matches and parties take the fields of the packet as arguments, and there a client's
-- UUID text, which is only compared, is a number; the login, intermediate and lobby servers read their
-- packets and have the text. Of a character, each part has the fields that its operations read or
-- write. A handler of the three servers keeps what it has changed when it throws, and the code that
-- catches goes on from there.
--
-- Parameters: the handler of a server that OnRead hands packets to, which may throw and does not close
-- the session or send on it; the statements that a server runs on its database, each a call that may
-- throw and changes the database; the division and the order of doubles; the content of the tables of
-- maps and monsters; the random bytes of a UUID; the clock's time; the scripts of a hit, each a
-- function of a character and a monster. The content of fresh memory is what the constructors of the
-- models are given.
--
-- Not modelled: sockets, threads and locks as such, connecting and settings, the database behind its
-- statements, Python scripts, the console and the debug output, the confirmation and the changes of the
-- zone in the zone server, the reading of the data tables, the clocks of the zones.
pub mod Common
pub mod Stream
pub mod Nio
pub mod Server
pub mod Utility
pub mod Model
pub mod Matching
pub mod Party
pub mod Zone
pub mod ZoneServer
pub mod ZoneSystem
pub mod Channel
pub mod Lobby
pub mod Login
pub mod Intermediate
pub mod Migration
pub mod Tests
