-- ===== src/Lib.antt =====
-- TitanMatch: a limit order book with price-time priority in two implementations, and the bounded
-- single-producer single-consumer queue through which a gateway passes commands to a matching thread.
--
-- The parts and their files:
--   Types      include/types.hpp: Side, OrderType, Order and Trade.
--   Matching   what submit_order, match_buy and match_sell have in common in both books: `admit` (the
--              guards), `is_blocked` (the price test), `make_trade`, `reduce`, `rests`.
--   Spec       an abstract book without index, addresses or links, with `submit` and `cancel`. It models
--              no file; the books are measured against it, up to the definitions of Matching, which it uses
--              too. Spec/Priority says without these which orders a taker meets and for how much,
--              Spec/Acceptance which orders are accepted.
--   Stl        src/stl_order_book.cpp. A std::map is a list of levels in the order of its comparator, a
--              std::list a list of nodes with addresses, the index an association list. The children
--              hold the queries (Query), the loops against plain recursion (Loops), the invariant (Valid),
--              and submit_order and cancel_order against Spec (Refine, Removal, Trading).
--   Pool       src/pool_order_book.cpp. Nodes in a vector, free list and level queues by node indices;
--              Match has the matching loops, Orders has submit_order, cancel_order and clear. The links:
--              Links says which queue of nodes a chain of indices stands for, a queue as in Stl with node
--              indices for addresses; Detach, Release and Attach are about remove_from_level, free_node
--              and append_to_level. Carry has the two maps and the free list together; Round, Meet and Sweep
--              the two matching loops next to those of Stl; Grow, Allot and Rest the allocation of a
--              node and its level; Drop, Found and Homes the way of cancel_order. Books and Submit put
--              submit_order together, and Represent, Withdraw, Fresh, Queries and Histories compare the
--              book with Spec and with Stl.
--   Spsc       include/spsc_queue.hpp. The counters wrap at 2 ^ 64; `&` is the bit operation.
--              Spsc has a call as one step of the state. Spsc/Threads takes push and pop apart into
--              single accesses, in any interleaving of two threads.
--   Protocol   src/protocol.cpp, over lists of bytes, with std::from_chars, std::to_string and the clock as
--              parameters. Tokens is about split_tokens, Commands and Roundtrip about parse_line.
--   Gateway    src/tcp_server.cpp. The parent has the bytes of a client as lines (Framing is about bytes that
--              several calls read). Execute has execute_command on the pool book, and Answers and Responds
--              are about its responses. Server has the state of TcpServer and what its two threads do with
--              it; a waiting push is a step that cannot be made yet. Pipeline has the steps of both
--              threads, in any order; its children follow the commands through both queues and the book.
--              Replies is about what drain_response_queue sends. Sockets has setup_server_socket, Poll
--              poll_events in pieces (`Task`) that end where the matching thread may come between, System
--              start, stop and matching_thread_loop as moves of the two threads. Under System, Steps and
--              Refines take these moves to the steps of Pipeline, Shutdown and Deadlock are about the join,
--              Lifetimes and Dangling about the references to clients. Lines, Recorded and Followed keep a
--              `History` of a client, move by move: its bytes, the lines that these became and the messages
--              that the lines made. Heard and Received are about its lines, Scanned and Settled about what
--              the loop over the lines leaves. Connections and System/Buffers have what operations do
--              to `clients_`.
--   Workload   include/workload.hpp. Plan and Accepted are about the actions that are generated, Stats has
--              calculate_stats. Random draws and `double` are parameters.
--   Main       src/main.cpp: the arguments, the signal handler, and the server with its capacities.
--   Base       lists, association lists and masks.
--   Tests      concrete runs.
--
-- How the code is read. `match_buy` and `match_sell` differ in the comparison of prices, the side of
-- the trades and the map that they walk, and are one loop with the taker's side as an argument. The
-- vector of trades that the code appends to is an argument and a part of the result. A move is
-- a copy: what a moved-from slot of the queue holds is not modelled.
--
-- Bounds and fuel. The inner loop of the std::list book has the length of its queue plus 2 as fuel and
-- the outer loop the number of levels plus 2: a round either removes an entry or leaves nothing of the
-- taker. The inner loop of the pool book has the number of nodes plus 2, for the same
-- reason. Node indices are 32-bit numbers of which the last is INVALID_IDX: `HasRoom` says that twice a
-- number of orders stays within it, so that the vector can double when that many nodes are in use.
-- round_up_power_of_two has 65 rounds, one for each bit and one more; a power that has reached 0 stays
-- there. split_tokens has as many rounds as the line has characters, and each takes at least one;
-- take_lines has as many rounds as the buffer has bytes, and each takes a newline.
--
-- The loop over the lines of a read is not on fuel: each round is a piece that leaves the next. The loop of
-- generate has the number of actions as its rounds.
--
-- Not modelled: tests, benchmarks and tools; output to the console; the addresses of clients. A second call
-- of start while one runs is left out. What a refused line or handle_client_write sends is not recorded.
-- The queue's atomics are sequentially consistent in the model, and pop_batch is one step only; so are a
-- test of the matching thread's loop and the end of start after the join.
pub mod Base
pub mod Gateway
pub mod Main
pub mod Matching
pub mod Pool
pub mod Protocol
pub mod Spec
pub mod Spsc
pub mod Stl
pub mod Tests
pub mod Types
pub mod Workload
