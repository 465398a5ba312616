-- ===== src/Lib.antt =====
-- Verification of KoordeDHT, a Koorde distributed hash table.
--
-- A node keeps an identifier space, a routing table (successor list, predecessor, de Bruijn list),
-- a local store of resources and a pool of connections to the nodes that its table names. A lookup
-- walks imaginary identifiers, one digit of the key at each de Bruijn hop, until the key lies
-- between a node and its successor.
--
-- The files, and the code that each models (paths from the repository's root):
-- * Identifier, internal/domain/identifier.go. Space has NewSpace, Zero, NewIdFromString,
--   IsValidID and FromUint64; Order has Cmp, Equal and Between; Arith has MulKMod and AddMod;
--   Digits has NextDigitBaseK and BestImaginarySimple; Hex has the texts and FromHexString. An
--   identifier is the list of its bytes; `value` is its number. Its child modules hold the proofs:
--   Space/Value and Space/Valid on the number and its bounds, Carry on loops with a carry,
--   Order/Circle on arcs, Arith/Mod on the sums and products, Digits/Next and Digits/Wide on
--   digits, Hex/Codec, Hex/Fit and Hex/Parse on texts.
-- * Domain, internal/domain/node.go and resource.go: nodes, resources and their messages; Client
--   has those of the client API, RoundTrip is about reading them back.
-- * RoutingTable, internal/node/routingtable/routingtable.go: one function for each method. Window
--   is about the replacement of a list, Promote about PromoteCandidate, Shape about the
--   sizes, Single about InitSingleNode.
-- * Storage, internal/node/storage/memory.go: one function for each method. Map reads the store as
--   a map, Arcs is about Between.
-- * Pool, internal/node/client/clientpool.go: one function for each method; a method whose mutex
--   is taken blocks. Counts and Tally are about the reference counts, Closed about a closed pool.
-- * LogicNode, internal/node/logicnode. Imaginary has the next imaginary node of a lookup, Hops
--   findNextHop, Lookup has FindSuccessorInit and FindSuccessorStep of operation.go with
--   FindSuccessorStep of internal/node/client/handler.go, and Context CheckContext of
--   internal/node/ctxutil/context.go and the tests of errors. Local has, of operation.go and
--   node.go, the operations on the node's own state: StoreLocal and the other local handlers,
--   Notify with the transfer of resources, HandleLeave and CreateNewDHT. Remote has StoreRemote,
--   RetrieveRemote and RemoveRemote of internal/node/client/handler.go, Calls its other calls, and
--   Requests has Put, Get, Delete and LookUp, of which Requests/Single follows a node that has
--   just created a DHT. Of worker.go, Workers has resourceRepair, fixSuccessorList and
--   checkPredecessor, with transferResourcesAsync of operation.go, Stabilize stabilizeSuccessor and
--   Window fixDeBruijn; References has their adjustment of the pool, and Network what a node sees
--   of the world. Of node.go, Join has Join, Departure Leave and Stop. An operation's Answer has
--   the ways not to return. Imaginary/Walk is about the digits that a lookup shifts in, Hops/Skips
--   and Hops/Covers about the circular list, Lookup/Ends and Lookup/Fuel about a node's calls of
--   itself, Lookup/Pools about the pool during a lookup, Local/Ownership, Local/Predecessor and
--   Local/Transfer about the handlers, Workers/Repair about the store during a repair, Halting
--   and Halting/Rounds about the fuel of requests and rounds, Stabilize/Closer, Stabilize/Ring
--   and Stabilize/Lost about the successor, References/Swap and Referenced about the
--   references that the pool holds for the routing table, with the steps of a node in
--   Referenced/Runs.
-- * Server, internal/node/server. Dht and Stream have dht_service.go, the unary calls and Store, and
--   Api client_service.go. Served says what the calls of the generated client rely on when such a
--   service answers them; Remote and Forward are about the client's calls and a node's requests
--   over it, Stream/Prefix about the stream.
-- * Config, ValidateConfig of internal/node/config/config.go with the types of the configuration;
--   Config/Load, LoadConfig with internal/configloader/override.go.
-- * Result has Go's errors, results and panics; Prelude the shared helpers; Tests the concrete
--   runs.
--
-- Every loop is structural recursion, but for two that run on fuel: the skipping of nil entries in
-- findNextHop has as much fuel as the list has entries, and a node's calls of its own
-- FindSuccessorStep have theirs from the caller; one turn around the list meets the node that it
-- starts from, and 2 * Bits + 1 steps of a lookup are enough, since the target's digits run out
-- within Bits steps and currentI is shifted to zero within Bits more. A lookup reads one routing
-- table; the network with the request's context is a state that only a call changes, and the calls
-- of the generated client are parameters. Bytes, products and the digit's uint64 keep their
-- wrap-around; lengths, indexes and reference counts are numbers without bound, and an index that
-- Go takes from a caller is an integer. The digest of SHA-1, the dialling and the closing of a
-- connection, the environment and the parsers of strconv and time are parameters. A Go map is an association list with one entry for each key, ranged
-- over in its order.
--
-- Workers and requests run one at a time: a step of a node is a whole round or a whole request.
--
-- Not modelled: the tickers that start the workers, the set-up of the gRPC server and generated
-- code, the reading of the YAML file, bootstrap, logging, telemetry and the command-line
-- programs.
pub mod Prelude
pub mod Result
pub mod Identifier
pub mod Domain
pub mod RoutingTable
pub mod Storage
pub mod Pool
pub mod LogicNode
pub mod Config
pub mod Server
pub mod Tests
