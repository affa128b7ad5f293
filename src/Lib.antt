-- ===== src/Lib.antt =====
-- Network functions in C, with the data structures that they are built of.
--
-- Data structures. env/src/structs/map.c is an open-addressing hash map from objects in memory to
-- numbers (Map), env/src/structs/index_pool.c a pool of indexes with expiration times (IndexPool);
-- both stand on env/include/os/memory.h (Memory). The record Map is `struct map`, with a list for the
-- array of items; the record IndexPool is `struct index_pool`. The functions keep the names that the
-- source gives them; a loop is a function of its own, such as `get_from` for the loop of `map_get`. The
-- map holds the addresses of its keys and not the keys: every operation takes the memory, a function
-- from addresses to the bytes that stand there. Cht models env/src/structs/cht.c, the consistent hash
-- table; its field `data` is `table_data`.
--
-- Environment. Config models env/src/os/config.c, env/include/os/config.h and the getter of
-- env/include/net/skeleton.h; the items, which the build writes, are a parameter. Net models
-- env/include/net/packet.h and env/include/net/tx.h: a packet is its bytes, a pointer to a header is an
-- offset, and a handler returns the call of `net_transmit` or its like that it makes. Flow is the
-- `struct flow` that three network functions share.
--
-- Network functions. All keep the same table: an array of keys, a map from the keys to their indexes
-- and a pool that hands out the indexes. KeyTable has its invariant and what the moves of such a table
-- mean, once for all. Firewall models nf/firewall (firewall.c, flow_table.h), and Nat models nf/nat
-- (nat.c, flow_table.h); Policer models nf/policer (policer.c); Bridge models nf/bridge/bridge.c, and
-- SpanningTree nf/bridge/spanning_tree.h, whose `stp_handle` the bridge calls first. In each, the file of
-- that name holds the definitions, with the handler `nf_handle` as a function from the state and a packet
-- to the next state and the output, and the files below it the proofs. Maglev models nf/maglev
-- (balancer.h, maglev.c) over Cht and two pools; Dhcp models nf/dhcp_ipv4 (dhcp.c, and dhcp.h in
-- Dhcp/Messages); Router models nf/router/router.c and Nop nf/nop/nop.c. The longest prefix match of
-- env/include/structs/lpm.h, which the repository does not implement, is the record Lpm of its
-- operations, with what the header says of them as a hypothesis.
--
-- Drivers. Net.Delivery says which devices a call of env/include/net/tx.h sends a packet to, and what a
-- driver asks of a call. Tinynf models the calls as env/src/net/tinynf/main.c serves them, with one
-- length for each output; Dpdk those of env/src/net/dpdk/main.c, with a queue for each device, and a
-- round of the loop in `main` from the received buffers on, where `rte_eth_tx_burst` is a parameter.
-- Both take any handler whose calls can be served; Functions, Bridge.Sends and Maglev.Handle are about
-- the calls of the network functions.
--
-- Words. `size_t` and `time_t` have 64 bits, and the wrap of each increment, decrement and cast is
-- written out. The CPU is little-endian, as the supported ones are.
--
-- Fuel. `grow_capacity` runs on 65 rounds, which are enough for every capacity that `map_alloc` admits
-- (its contract asks for 64 times the capacity to fit in 64 bits); `os_init` of
-- env/src/os/dpdk/init.c divides by 10 at most 20 times, which is enough for 64 bits; `compare_from`
-- runs on one round more than the first string is long, and ends at its NUL. The wait of
-- env/src/os/metal/clock.c, which may not end, takes the number of its rounds. The other loops are
-- bounded in the source.
--
-- Memory. MemoryAlloc models `os_memory_alloc` of env/src/os/memory_alloc.c over the addresses of its
-- pool, and `map_alloc` in Map.antt allocates from it, with the wrap of the block's size. The network
-- functions call `map_with_memory`, the map of a `map_alloc` whose allocations return; there, as in the
-- other files, an allocation is zeroed memory of its own: the function halts the program when memory
-- runs out.
--
-- Operating system. Os.Clock models env/include/os/clock.h with env/include/arch/tsc.h, the frequency
-- that `os_init` sets (env/src/os/dpdk/init.c; Linux and the bare machine call `tsc_get_nhz`), and the
-- waits of env/src/os/linux/clock.c and env/src/os/metal/clock.c; Os.Paging the translation of
-- addresses of env/src/os/linux/memory.c, with the page map as a parameter; Os.Pci the port accesses
-- of env/include/os/pci.h; Os.Endian the macros `swap16` and `swap32` of env/include/arch/endian.h. A
-- call that aborts returns nothing.
--
-- Runs. The History and Safety files of the network functions follow a run of packets, the latest
-- first, and say what the packets so far have made of the state.
--
-- Not modelled. Messages of `os_debug` are left out. env/src/net/tinynf/ixgbe.c and network.h are a
-- modified copy of another project's driver. The rest of the operating system layers, the set-up of
-- the drivers and the register accesses are input and output. The options of a DHCP message are taken
-- to be apart from its header, although their pointer comes from the packet. The tool that analyses
-- compiled code and the policer in Rust are in other languages.
pub mod Base
pub mod Memory
pub mod MemoryAlloc
pub mod Os
pub mod Map
pub mod Cht
pub mod IndexPool
pub mod KeyTable
pub mod Net
pub mod Config
pub mod Flow
pub mod Firewall
pub mod Nat
pub mod Policer
pub mod SpanningTree
pub mod Bridge
pub mod Maglev
pub mod Router
pub mod Nop
pub mod Dhcp
pub mod Tinynf
pub mod Dpdk
pub mod Functions
pub mod Tests
